-- ===== src/Sh/Gettoken.antt =====
-- gettoken() and peek() stay inside the line, and move on.
use Prim.Native.String.{String}
use large_project.Prelude.{
  ℕ, zero, suc, ◌+◌, ◌-◌, ◌≤◌, ◌<◌, ◌≡◌, ◌≢◌, refl, sym, ap, subst, ◌⊎◌, inl, inr, Bool, true,
  false, List, ◌==◌, arith, Bool-cases, ℕ_discrete,
}
use large_project.Sh.{
  Text, one_of, whitespace, single, gt_char, skip, is_space, in_word, Token, Parsed, parsed, panics,
  spent, resume, spaces, token_at, gettoken, peek,
}

skip-inside :
    (p : ℕ → Bool) (line : Text) (n s : ℕ) → (s ≤ skip p line n s) × (skip p line n s ≤ s + n)
unfolding skip
skip-inside p line zero s = (omega arith, omega arith)
skip-inside p line (suc n) s =
    let (lo, hi) = skip-inside p line n (s + 1) in
    elim (Bool-cases (p (line s))) [
      | inl y ↦ rw y (omega arith, omega arith)
      | inr f ↦ rw f (omega arith, omega arith)
    ]

-- The loop stops at the end or at a character that is not skipped.
skip-stops :
    (p : ℕ → Bool) (line : Text) (n s : ℕ)
    → (skip p line n s ≡ s + n) ⊎ (p (line (skip p line n s)) ≡ false)
unfolding skip
skip-stops p line zero s = inl (omega arith)
skip-stops p line (suc n) s = elim (Bool-cases (p (line s))) [
  | inl y ↦ rw y (elim (skip-stops p line n (s + 1)) [ inl e ↦ inl (omega arith) | inr f ↦ inr f ])
  | inr f ↦ rw f (inr f)
]

skip-first :
    (p : ℕ → Bool) (line : Text) (n s : ℕ) → p (line s) ≡ true → 0 < n → s < skip p line n s
unfolding skip
skip-first p line zero s y lt = absurd (omega arith)
skip-first p line (suc n) s y lt = let (lo, hi) = skip-inside p line n (s + 1) in rw y (omega arith)

word_head :
    (c : ℕ)
    → one_of whitespace c ≡ false
    → one_of single c ≡ false
    → (c == gt_char) ≡ false
    → in_word c ≡ true
unfolding one_of
word_head c sp sg g = ground arith

module _ (line : Text) (es : ℕ) where
  spaces-inside : (s : ℕ) → s ≤ es → (s ≤ spaces line es s) × (spaces line es s ≤ es)
  unfolding spaces
  spaces-inside s le = let (lo, hi) = skip-inside is_space line (es - s) s in (lo, omega arith)

  spaces-stops :
      (s : ℕ)
      → s ≤ es
      → (spaces line es s ≡ es) ⊎ (one_of whitespace (line (spaces line es s)) ≡ false)
  unfolding spaces
  spaces-stops s le = elim (skip-stops is_space line (es - s) s) [
    | inl e ↦ inl (omega arith)
    | inr f ↦ inr f
  ]

  -- A token at `s` ends inside the line, and is not empty unless it is the end.
  abbrev pub Spans : ℕ → Token → Type 0
  Spans s t = (t.q ≡ s) × (s ≤ t.eq) × (t.eq ≤ es) × (t.ret ≢ 0 → s < t.eq)

  token_at-Spans :
      (s : ℕ)
      → line es ≡ 0
      → s ≤ es
      → (s ≡ es) ⊎ (one_of whitespace (line s) ≡ false)
      → Spans s (token_at line es s)
  unfolding token_at
  token_at-Spans s nul le stops = elim (Bool-cases (line s == 0)) [
    | inl y ↦ rw y (refl, omega arith, le, λ nz. absurd (nz refl))
    | inr z ↦ elim (Bool-cases (one_of single (line s))) [
      | inl y ↦ rw (z, y) (refl, omega arith, before s z le, λ nz. omega arith)
      | inr n ↦ elim (Bool-cases (line s == gt_char)) [
        | inl g ↦ elim (Bool-cases (line (s + 1) == gt_char)) [
          | inl h ↦
              let one = before s z le in
              let two = before (s + 1) (ground (arith, h)) one in
              rw (z, n, g, h) (refl, omega arith, omega arith, λ nz. omega arith)
          | inr h ↦ rw (z, n, g, h) (refl, omega arith, before s z le, λ nz. omega arith)
        ]
        | inr g ↦
            let one = before s z le in
            let (lo, hi) = skip-inside in_word line (es - s) s in
            rw (z, n, g)
              (
                refl,
                lo,
                omega arith,
                λ nz.
                    skip-first in_word line (es - s) s
                      (word_head (line s) (elim stops [ inl e ↦ absurd (omega arith) | inr f ↦ f ])
                        n g)
                      (omega arith),
              )
      ]
    ]
  ]
    where
      before : (p : ℕ) → (line p == 0) ≡ false → p ≤ es → p + 1 ≤ es
      before p nz l = elim (ℕ_discrete p es) [
        | yes e ↦ let zero_here = ap line e in absurd (ground arith)
        | no ne ↦ omega arith
      ]

  token_at-ret : (s : ℕ) → (line s == 0) ≡ false → ((token_at line es s).ret == 0) ≡ false
  unfolding token_at
  token_at-ret s z = elim (Bool-cases (one_of single (line s))) [
    | inl y ↦ rw (z, y) z
    | inr n ↦ elim (Bool-cases (line s == gt_char)) [
      | inl g ↦ elim (Bool-cases (line (s + 1) == gt_char)) [
        | inl h ↦ rw (z, n, g, h) refl
        | inr h ↦ rw (z, n, g, h) refl
      ]
      | inr g ↦ rw (z, n, g) refl
    ]
  ]

  -- How a function ends that began at `s`: at a position behind, in the line, with a value that is
  -- right; or in panic(). It does not run out of fuel.
  unfoldable pub Ends : {A : Type 0} → (A → Type 0) → ℕ → Parsed A → Type 0
  Ends Right s (parsed a at) = (s ≤ at) × (at ≤ es) × Right a
  Ends Right s (panics e) = Unit
  Ends Right s spent = ⊥

  pub Ends-parsed :
      {A : Type 0} (Right : A → Type 0) (s at : ℕ) (a : A)
      → s ≤ at
      → at ≤ es
      → Right a
      → Ends Right s (parsed a at)
  unfolding Ends
  Ends-parsed Right s at a lo hi q = (lo, hi, q)

  pub Ends-panics : {A : Type 0} (Right : A → Type 0) (s : ℕ) (e : String) → Ends Right s (panics e)
  unfolding Ends
  Ends-panics Right s e = tt

  pub Ends-weaken :
      {A : Type 0} (Right : A → Type 0) (s at : ℕ) (r : Parsed A)
      → s ≤ at
      → Ends Right at r
      → Ends Right s r
  unfolding Ends
  Ends-weaken Right s at (parsed a to) le (lo, hi, q) = (omega arith, hi, q)
  Ends-weaken Right s at (panics e) le h = tt
  Ends-weaken Right s at spent le never = elim never [ ]

  pub Ends-resume :
      {A B : Type 0} (Right : A → Type 0) (Then : B → Type 0) (s : ℕ) (r : Parsed A)
      (k : A → ℕ → Parsed B)
      → Ends Right s r
      → ((a : A) (at : ℕ) → s ≤ at → at ≤ es → Right a → Ends Then at (k a at))
      → Ends Then s (resume r k)
  unfolding Ends
  Ends-resume Right Then s (parsed a at) k (lo, hi, q) h =
      Ends-weaken Then s at (k a at) lo (h a at lo hi q)
  Ends-resume Right Then s (panics e) k u h = tt
  Ends-resume Right Then s spent k never h = elim never [ ]

  pub peek-Ends :
      {B : Type 0} (Then : B → Type 0) (toks : List ℕ) (s : ℕ) (k : Bool → ℕ → Parsed B)
      → s ≤ es
      → ((at : ℕ) → s ≤ at → at ≤ es → (line at == 0) ≡ false → Ends Then at (k true at))
      → ((at : ℕ) → s ≤ at → at ≤ es → Ends Then at (k false at))
      → Ends Then s (resume (peek line es toks s) k)
  unfolding peek
  peek-Ends Then toks s k le yes_then no_then =
      let (lo, hi) = spaces-inside s le in
      let at = spaces line es s in
      elim (Bool-cases (line at == 0)) [
        | inl z ↦ rw z (Ends-weaken Then s at (k false at) lo (no_then at lo hi))
        | inr z ↦ elim (Bool-cases (one_of toks (line at))) [
          | inl y ↦ rw (z, y) (Ends-weaken Then s at (k true at) lo (yes_then at lo hi z))
          | inr n ↦ rw (z, n) (Ends-weaken Then s at (k false at) lo (no_then at lo hi))
        ]
      ]

  -- A token that gettoken() returns.
  abbrev pub Cut : Token → Type 0
  Cut t = (t.eq ≤ es) × (t.ret ≢ 0 → t.q < t.eq)

  pub gettoken-Ends :
      {B : Type 0} (Then : B → Type 0) (s : ℕ) (k : Token → ℕ → Parsed B)
      → line es ≡ 0
      → s ≤ es
      → ((t : Token) (at : ℕ)
          → s ≤ at
          → at ≤ es
          → Cut t
          → (t.ret ≢ 0 → s < at)
          → ((line s == 0) ≡ false → s < at)
          → Ends Then at (k t at))
      → Ends Then s (resume (gettoken line es s) k)
  unfolding gettoken
  gettoken-Ends Then s k nul le h =
      let (lo, hi) = spaces-inside s le in
      let q = spaces line es s in
      let t = token_at line es q in
      let (start, after, end, wide) = token_at-Spans q nul hi (spaces-stops s le) in
      let (lo2, hi2) = spaces-inside t.eq end in
      let at = spaces line es t.eq in
      let moved : (line s == 0) ≡ false → s < at = λ z. elim (ℕ_discrete q s) [
        | yes e ↦
            let nz = token_at-ret q (subst (λ x. (line x == 0) ≡ false) (sym e) z) in
            let w = wide (λ x. ground arith) in omega arith
        | no ne ↦ omega arith
      ] in
      Ends-weaken Then s at (k t at) (omega arith) (
        h t at (omega arith) hi2 (end, λ nz. let w = wide nz in omega arith)
          (λ nz. let w = wide nz in omega arith) moved)
