-- ===== src/Sh/Safe.antt =====
-- The parser ends, and what it points at is in the line.
use large_project.Prelude.{
  ℕ, zero, suc, ◌+◌, ◌≤◌, ◌<◌, ◌≡◌, ◌≢◌, refl, inl, inr, not, List, [], ◌∷◌, ◌++◌, ltb, ◌==◌,
  if◌then◌else◌, arith, Bool-cases,
}
use large_project.Sh.{
  Text, Word, Cmd, execcmd, redircmd, pipecmd, listcmd, backcmd, maxargs, o_rdonly, o_create,
  gt_char, append_tok, word_tok, Token, Parser, ◌>>=◌, give, panic,
}
use large_project.Sh.Parse.{
  redirect, add_arg, parseredirs, parseargs, parseblock, parseexec, parsepipe, parseback, parseline,
}
use large_project.Sh.Gettoken.{
  Ends, Ends-parsed, Ends-panics, Ends-resume, peek-Ends, Cut, gettoken-Ends,
}

-- A word of the line before `es`.
abbrev pub InLine : ℕ → Word → Type 0
InLine es (q, eq) = (q < eq) × (eq ≤ es)

abbrev pub AllIn : ℕ → List Word → Type 0
AllIn es [] = Unit
AllIn es (w ∷ ws) = InLine es w × AllIn es ws

abbrev pub argc_of : List Word → ℕ
argc_of [] = 0
argc_of (w ∷ ws) = suc (argc_of ws)

-- The words and names of a command are words of the line, and no argv is full.
abbrev pub Inside : ℕ → Cmd → Type 0
Inside es (execcmd args) = (argc_of args < maxargs) × AllIn es args
Inside es (redircmd c file efile mode fd) = Inside es c × InLine es (file, efile)
Inside es (pipecmd l r) = Inside es l × Inside es r
Inside es (listcmd l r) = Inside es l × Inside es r
Inside es (backcmd c) = Inside es c

-- The command inside the redirections has `n` words.
abbrev Holds : ℕ → ℕ → Cmd → Type 0
Holds es n (execcmd args) = (argc_of args ≡ n) × AllIn es args
Holds es n (redircmd c file efile mode fd) = Holds es n c × InLine es (file, efile)
Holds es n c = ⊥

AllIn-append :
    (es : ℕ) (ws : List Word) (w : Word) → AllIn es ws → InLine es w → AllIn es (ws ++ w ∷ [])
AllIn-append es [] w a i = (i, tt)
AllIn-append es (v ∷ ws) w (j, a) i = (j, AllIn-append es ws w a i)

argc_of-append : (ws : List Word) (w : Word) → argc_of (ws ++ w ∷ []) ≡ argc_of ws + 1
argc_of-append [] w = refl
argc_of-append (v ∷ ws) w = let rest = argc_of-append ws w in omega arith

add_arg-Holds :
    (es n : ℕ) (w : Word) (c : Cmd) → Holds es n c → InLine es w → Holds es (n + 1) (add_arg w c)
unfolding add_arg
add_arg-Holds es n w (execcmd args) (e, a) i =
    let more = argc_of-append args w in (omega arith, AllIn-append es args w a i)
add_arg-Holds es n w (redircmd c file efile mode fd) (h, f) i = (add_arg-Holds es n w c h i, f)
add_arg-Holds es n w (pipecmd l r) h i = elim h [ ]
add_arg-Holds es n w (listcmd l r) h i = elim h [ ]
add_arg-Holds es n w (backcmd c) h i = elim h [ ]

Holds-Inside : (es n : ℕ) (c : Cmd) → n < maxargs → Holds es n c → Inside es c
Holds-Inside es n (execcmd args) lt (e, a) = (omega arith, a)
Holds-Inside es n (redircmd c file efile mode fd) lt (h, f) = (Holds-Inside es n c lt h, f)
Holds-Inside es n (pipecmd l r) lt h = elim h [ ]
Holds-Inside es n (listcmd l r) lt h = elim h [ ]
Holds-Inside es n (backcmd c) lt h = elim h [ ]

-- What a redirection keeps.
abbrev Closed : ℕ → (Cmd → Type 0) → Type 0
Closed es P =
    (c : Cmd) (file efile mode fd : ℕ)
    → P c
    → InLine es (file, efile)
    → P (redircmd c file efile mode fd)

redirect-Closed :
    (es : ℕ) (P : Cmd → Type 0) (c : Cmd) (tok : ℕ) (t : Token)
    → Closed es P
    → P c
    → InLine es (t.q, t.eq)
    → P (redirect c tok t)
unfolding redirect
redirect-Closed es P c tok t closed p i = elim (Bool-cases (tok == 60)) [
  | inl y ↦ rw y (closed c t.q t.eq o_rdonly 0 p i)
  | inr n ↦ elim (Bool-cases (tok == gt_char)) [
    | inl y ↦ rw (n, y) (closed c t.q t.eq o_create 1 p i)
    | inr g ↦ elim (Bool-cases (tok == append_tok)) [
      | inl y ↦ rw (n, g, y) (closed c t.q t.eq o_create 1 p i)
      | inr a ↦ rw (n, g, a) p
    ]
  ]
]

module _ (line : Text) (es : ℕ) (nul : line es ≡ 0) where
  -- The name of the file that a redirection is to.
  file-Ends :
      (P : Cmd → Type 0) (fuel : ℕ) (c : Cmd) (tok : ℕ) (t : Token) (s at : ℕ)
      → Closed es P
      → P c
      → Cut line es t
      → (P (redirect c tok t) → Ends line es P at (parseredirs line es fuel (redirect c tok t) at))
      → Ends line es P at (
          (if t.ret == word_tok
              then parseredirs line es fuel (redirect c tok t)
              else panic "missing file for redirection")
            at)
  file-Ends P fuel c tok t s at closed p (end, wide) h = elim (Bool-cases (t.ret == word_tok)) [
    | inl y ↦ rw y (h (redirect-Closed es P c tok t closed p (wide (λ z. ground (arith, y)), end)))
    | inr n ↦ rw n (Ends-panics line es P at "missing file for redirection")
  ]

  parseredirs-Ends :
      (P : Cmd → Type 0) (fuel : ℕ) (c : Cmd) (s : ℕ)
      → Closed es P
      → P c
      → s ≤ es
      → es < s + fuel
      → Ends line es P s (parseredirs line es fuel c s)
  unfolding parseredirs
  parseredirs-Ends P zero c s closed p le lt = absurd (omega arith)
  parseredirs-Ends P (suc fuel) c s closed p le lt =
      peek-Ends line es P (60 ∷ gt_char ∷ []) s _ le
        (λ at lo hi z. gettoken-Ends line es P at _ nul hi (λ tok at1 lo1 hi1 cut1 on1 moved1.
          let m1 = moved1 z in
          gettoken-Ends line es P at1 _ nul hi1 (λ file at2 lo2 hi2 cut2 on2 moved2.
            file-Ends P fuel c tok.ret file at1 at2 closed p cut2 (λ q.
              parseredirs-Ends P fuel (redirect c tok.ret file) at2 closed q hi2 (omega arith)))))
        (λ at lo hi. Ends-parsed line es P at at c (omega arith) hi p)

  Holds-Closed : (n : ℕ) → Closed es (Holds es n)
  Holds-Closed n c file efile mode fd h i = (h, i)

  Inside-Closed : Closed es (Inside es)
  Inside-Closed c file efile mode fd h i = (h, i)

  -- What parseargs() does with a token.
  arg-Ends :
      (fuel n : ℕ) (c : Cmd) (t : Token) (at : ℕ)
      → n < maxargs
      → Holds es n c
      → Cut line es t
      → at ≤ es
      → (t.ret ≢ 0 → es < at + fuel)
      → ((r : Cmd) (to : ℕ)
          → n + 1 < maxargs
          → Holds es (n + 1) r
          → to ≤ es
          → es < to + fuel
          → Ends line es (Inside es) to (parseargs line es fuel (n + 1) r to))
      → Ends line es (Inside es) at (
          (if t.ret == 0
              then give c
              else if not (t.ret == word_tok)
              then panic "syntax"
              else if not (ltb (n + 1) maxargs)
              then panic "too many args"
              else (parseredirs line es (suc fuel) (add_arg (t.q, t.eq) c) >>= λ r.
                  parseargs line es fuel (n + 1) r))
            at)
  arg-Ends fuel n c t at lt h (end, wide) le more rest = elim (Bool-cases (t.ret == 0)) [
    | inl y ↦
        rw y (Ends-parsed line es (Inside es) at at c (omega arith) le (Holds-Inside es n c lt h))
    | inr z ↦ elim (Bool-cases (t.ret == word_tok)) [
      | inr w ↦ rw (z, w) (Ends-panics line es (Inside es) at "syntax")
      | inl w ↦ elim (Bool-cases (ltb (n + 1) maxargs)) [
        | inr f ↦ rw (z, w, f) (Ends-panics line es (Inside es) at "too many args")
        | inl f ↦
            let nz : t.ret ≢ 0 = λ e. ground (arith, z) in
            let room = more nz in
            rw (z, w, f)
              (Ends-resume line es (Holds es (n + 1)) (Inside es) at
                (parseredirs line es (suc fuel) (add_arg (t.q, t.eq) c) at)
                (λ r. parseargs line es fuel (n + 1) r)
                (parseredirs-Ends (Holds es (n + 1)) (suc fuel) (add_arg (t.q, t.eq) c) at
                  (Holds-Closed (n + 1)) (add_arg-Holds es n (t.q, t.eq) c h (wide nz, end)) le
                  (omega arith))
                (λ r to lo hi g. rest r to (ground (arith, f)) g hi (omega arith)))
      ]
    ]
  ]

  parseargs-Ends :
      (fuel n : ℕ) (c : Cmd) (s : ℕ)
      → n < maxargs
      → Holds es n c
      → s ≤ es
      → es < s + fuel
      → Ends line es (Inside es) s (parseargs line es fuel n c s)
  unfolding parseargs
  parseargs-Ends zero n c s lt h le room = absurd (omega arith)
  parseargs-Ends (suc fuel) n c s lt h le room =
      peek-Ends line es (Inside es) (124 ∷ 41 ∷ 38 ∷ 59 ∷ []) s _ le
        (λ at lo hi z.
          Ends-parsed line es (Inside es) at at c (omega arith) hi (Holds-Inside es n c lt h))
        (λ at lo hi. gettoken-Ends line es (Inside es) at _ nul hi (λ t at1 lo1 hi1 cut on moved.
          arg-Ends fuel n c t at1 lt h cut hi1 (λ nz. let m = on nz in omega arith)
            (λ r to lt2 g hi2 room2. parseargs-Ends fuel (n + 1) r to lt2 g hi2 room2)))

  -- parseline() as it is given to the functions below it, from position `from` on.
  abbrev Lines : ℕ → Parser Cmd → Type 0
  Lines from parse = (s : ℕ) → from < s → s ≤ es → Ends line es (Inside es) s (parse s)

  parseblock-Ends :
      (fuel s from : ℕ) (parse : Parser Cmd)
      → Lines from parse
      → from ≤ s
      → s ≤ es
      → es < s + fuel
      → Ends line es (Inside es) s (parseblock line es fuel parse s)
  unfolding parseblock
  parseblock-Ends fuel s from parse ih fr le room =
      peek-Ends line es (Inside es) (40 ∷ []) s _ le
        (λ at lo hi z. gettoken-Ends line es (Inside es) at _ nul hi (λ t at1 lo1 hi1 cut on moved.
          let m = moved z in
          Ends-resume line es (Inside es) (Inside es) at1 (parse at1) _ (ih at1 (omega arith) hi1)
            (λ c at2 lo2 hi2 g.
              peek-Ends line es (Inside es) (41 ∷ []) at2 _ hi2
                (λ at3 lo3 hi3 z3.
                  gettoken-Ends line es (Inside es) at3 _ nul hi3 (λ t4 at4 lo4 hi4 cut4 on4 moved4.
                    parseredirs-Ends (Inside es) fuel c at4 Inside-Closed g hi4 (omega arith)))
                (λ at3 lo3 hi3. Ends-panics line es (Inside es) at3 "syntax - missing )"))))
        (λ at lo hi. Ends-panics line es (Inside es) at "parseblock")

  parseexec-Ends :
      (fuel s from : ℕ) (parse : Parser Cmd)
      → Lines from parse
      → from ≤ s
      → s ≤ es
      → es < s + fuel
      → Ends line es (Inside es) s (parseexec line es fuel parse s)
  unfolding parseexec
  parseexec-Ends fuel s from parse ih fr le room =
      peek-Ends line es (Inside es) (40 ∷ []) s _ le
        (λ at lo hi z. parseblock-Ends fuel at from parse ih (omega arith) hi (omega arith))
        (λ at lo hi.
          Ends-resume line es (Holds es 0) (Inside es) at (parseredirs line es fuel (execcmd []) at)
            _
            (parseredirs-Ends (Holds es 0) fuel (execcmd []) at (Holds-Closed 0) (refl, tt) hi
              (omega arith))
            (λ r to lo2 hi2 g. parseargs-Ends fuel 0 r to (omega arith) g hi2 (omega arith)))

  parsepipe-Ends :
      (fuel s from : ℕ) (parse : Parser Cmd)
      → Lines from parse
      → from ≤ s
      → s ≤ es
      → es < s + fuel
      → Ends line es (Inside es) s (parsepipe line es fuel parse s)
  unfolding parsepipe
  parsepipe-Ends zero s from parse ih fr le room = absurd (omega arith)
  parsepipe-Ends (suc fuel) s from parse ih fr le room =
      Ends-resume line es (Inside es) (Inside es) s (parseexec line es (suc fuel) parse s) _
        (parseexec-Ends (suc fuel) s from parse ih fr le room)
        (λ c at lo hi g.
          peek-Ends line es (Inside es) (124 ∷ []) at _ hi
            (λ at1 lo1 hi1 z.
              gettoken-Ends line es (Inside es) at1 _ nul hi1 (λ t at2 lo2 hi2 cut on moved.
                let m = moved z in
                Ends-resume line es (Inside es) (Inside es) at2 (parsepipe line es fuel parse at2) _
                  (parsepipe-Ends fuel at2 from parse ih (omega arith) hi2 (omega arith))
                  (λ r at3 lo3 hi3 k.
                    Ends-parsed line es (Inside es) at3 at3 (pipecmd c r) (omega arith) hi3
                      (g, k))))
            (λ at1 lo1 hi1. Ends-parsed line es (Inside es) at1 at1 c (omega arith) hi1 g))

  parseback-Ends :
      (fuel : ℕ) (c : Cmd) (s : ℕ)
      → Inside es c
      → s ≤ es
      → es < s + fuel
      → Ends line es (Inside es) s (parseback line es fuel c s)
  unfolding parseback
  parseback-Ends zero c s g le room = absurd (omega arith)
  parseback-Ends (suc fuel) c s g le room =
      peek-Ends line es (Inside es) (38 ∷ []) s _ le
        (λ at lo hi z. gettoken-Ends line es (Inside es) at _ nul hi (λ t at1 lo1 hi1 cut on moved.
          let m = moved z in parseback-Ends fuel (backcmd c) at1 g hi1 (omega arith)))
        (λ at lo hi. Ends-parsed line es (Inside es) at at c (omega arith) hi g)

  pub parseline-Ends :
      (fuel s : ℕ) → s ≤ es → es < s + fuel → Ends line es (Inside es) s (parseline line es fuel s)
  unfolding parseline
  parseline-Ends zero s le room = absurd (omega arith)
  parseline-Ends (suc fuel) s le room =
      Ends-resume line es (Inside es) (Inside es) s
        (parsepipe line es (suc fuel) (parseline line es fuel) s) _
        (parsepipe-Ends (suc fuel) s s (parseline line es fuel)
          (λ at lt hi. parseline-Ends fuel at hi (omega arith)) (omega arith) le room)
        (λ first at lo hi g.
          Ends-resume line es (Inside es) (Inside es) at (parseback line es (suc fuel) first at) _
            (parseback-Ends (suc fuel) first at g hi (omega arith))
            (λ c at1 lo1 hi1 k.
              peek-Ends line es (Inside es) (59 ∷ []) at1 _ hi1
                (λ at2 lo2 hi2 z.
                  gettoken-Ends line es (Inside es) at2 _ nul hi2 (λ t at3 lo3 hi3 cut on moved.
                    let m = moved z in
                    Ends-resume line es (Inside es) (Inside es) at3 (parseline line es fuel at3) _
                      (parseline-Ends fuel at3 hi3 (omega arith))
                      (λ r at4 lo4 hi4 q.
                        Ends-parsed line es (Inside es) at4 at4 (listcmd c r) (omega arith) hi4
                          (k, q))))
                (λ at2 lo2 hi2. Ends-parsed line es (Inside es) at2 at2 c (omega arith) hi2 k)))
