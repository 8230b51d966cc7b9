-- ===== src/Fs/Walk.antt =====
-- namex() against the elements of the path, split at the slashes.
use large_project.Prelude.{
  ℕ, zero, suc, ◌+◌, ◌≤◌, ◌<◌, ◌≡◌, refl, sym, ap, fun_ext, ◌∙◌, inl, inr, Bool, false, Option,
  none, some, List, [], ◌∷◌, map, ◌==◌, if◌then◌else◌, arith, Bool-cases,
}
use large_project.Fs.Layout.{Super, dirsiz}
use large_project.Fs.State.{M, ◌>>=◌}
use large_project.Fs.Content.{Devsw, byte_count}
use large_project.Fs.Path.{
  slash, skip_slashes, element, after_element, first_bytes, take_element, skipelem, ends_here,
  step_in, turn, walk, namex,
}
use large_project.Fs.Follow.{
  is_nil, follow, step_in-follow, arrive-follow, start, first_inode-start,
}

abbrev add_head : ℕ → List (List ℕ) → List (List ℕ)
add_head c [] = (c ∷ []) ∷ []
add_head c (x ∷ xs) = (c ∷ x) ∷ xs

-- A string is split at every slash, and the empty parts are dropped.
abbrev split : List ℕ → List (List ℕ)
split [] = [] ∷ []
split (c ∷ path) = let rest = split path in if c == slash then [] ∷ rest else add_head c rest

abbrev nonempty : List (List ℕ) → List (List ℕ)
nonempty [] = []
nonempty ([] ∷ xs) = nonempty xs
nonempty ((c ∷ x) ∷ xs) = (c ∷ x) ∷ nonempty xs

abbrev elements : List ℕ → List (List ℕ)
elements path = nonempty (split path)

-- A name as an entry of a directory holds it: DIRSIZ bytes at most.
abbrev cut : ℕ → List ℕ → List ℕ
cut n [] = []
cut zero (c ∷ s) = []
cut (suc n) (c ∷ s) = c ∷ cut n s

first_bytes-cut : (n : ℕ) (s : List ℕ) → cut n s ≡ first_bytes n s
unfolding first_bytes
first_bytes-cut zero [] = refl
first_bytes-cut zero (c ∷ s) = refl
first_bytes-cut (suc n) [] = refl
first_bytes-cut (suc n) (c ∷ s) = ap (λ r. c ∷ r) (first_bytes-cut n s)

-- The names that are looked up.
abbrev pub names : List ℕ → List (List ℕ)
names path = map (cut 14) (elements path)

elements-skip_slashes : (path : List ℕ) → elements (skip_slashes path) ≡ elements path
unfolding skip_slashes
elements-skip_slashes [] = refl
elements-skip_slashes (c ∷ path) = elim (Bool-cases (c == slash)) [
  | inl y ↦ rw y (elements-skip_slashes path)
  | inr n ↦ rw (n, n) refl
]

split-element :
    (path : List ℕ)
    → (ts : List (List ℕ)) × (split path ≡ element path ∷ ts)
      × (nonempty ts ≡ elements (after_element path))
unfolding element after_element
split-element [] = ([], refl, refl)
split-element (c ∷ path) = elim (Bool-cases (c == slash)) [
  | inl y ↦ rw y (split path, refl, rw y refl)
  | inr n ↦ let (ts, e, f) = split-element path in rw n (ts, ap (add_head c) e, f)
]

elements-element :
    (c : ℕ) (path : List ℕ)
    → (c == slash) ≡ false
    → elements (c ∷ path) ≡ element (c ∷ path) ∷ elements (after_element (c ∷ path))
unfolding element after_element
elements-element c path n =
    let (ts, e, f) = split-element path in rw (n, e) (ap (λ xs. (c ∷ element path) ∷ xs) f)

byte_count-skip_slashes : (path : List ℕ) → byte_count (skip_slashes path) ≤ byte_count path
unfolding skip_slashes byte_count
byte_count-skip_slashes [] = omega arith
byte_count-skip_slashes (c ∷ path) = let rest = byte_count-skip_slashes path in ground arith

byte_count-after_element : (path : List ℕ) → byte_count (after_element path) ≤ byte_count path
unfolding after_element byte_count
byte_count-after_element [] = omega arith
byte_count-after_element (c ∷ path) = let rest = byte_count-after_element path in ground arith

-- What is left after slashes does not begin with one.
abbrev Head : List ℕ → Type 0
Head [] = Unit
Head (c ∷ path) = (c == slash) ≡ false

skip_slashes-Head : (path : List ℕ) → Head (skip_slashes path)
unfolding skip_slashes
skip_slashes-Head [] = tt
skip_slashes-Head (c ∷ path) = elim (Bool-cases (c == slash)) [
  | inl y ↦ rw y (skip_slashes-Head path)
  | inr n ↦ rw n n
]

ends_here-is_nil : (path : List ℕ) → Head path → ends_here path ≡ is_nil (names path)
ends_here-is_nil [] h = refl
ends_here-is_nil (c ∷ path) h = rw (elements-element c path h) refl

-- What skipelem() does to the names of a path.
abbrev Takes : List ℕ → Option (List ℕ × List ℕ) → Type 0
Takes path none = names path ≡ []
Takes path (some (name, rest)) =
    (names path ≡ name ∷ names rest)
    × (byte_count rest < byte_count path)
    × (ends_here rest ≡ is_nil (names rest))

byte_count-rest :
    (c : ℕ) (path : List ℕ)
    → (c == slash) ≡ false
    → byte_count (skip_slashes (after_element (c ∷ path))) < byte_count (c ∷ path)
unfolding after_element byte_count
byte_count-rest c path h =
    let less = byte_count-skip_slashes (after_element path) in
    let more = byte_count-after_element path in rw h (omega arith)

take_element-Takes : (path : List ℕ) → Head path → Takes path (take_element path)
unfolding take_element
take_element-Takes [] h = refl
take_element-Takes (c ∷ path) h =
    let rest = after_element (c ∷ path) in
    (
      ap (map (cut 14)) (
            elements-element c path h
            ∙ ap (λ xs. element (c ∷ path) ∷ xs) (sym (elements-skip_slashes rest)))
          ∙ ap (λ x. x ∷ names (skip_slashes rest)) (first_bytes-cut dirsiz (element (c ∷ path))),
      byte_count-rest c path h,
      ends_here-is_nil (skip_slashes rest) (skip_slashes-Head rest),
    )

skipelem-Takes : (path : List ℕ) → Takes path (skipelem path)
unfolding skipelem
skipelem-Takes path =
    transfer (take_element (skip_slashes path))
      (take_element-Takes (skip_slashes path) (skip_slashes-Head path))
  where
    transfer : (r : Option (List ℕ × List ℕ)) → Takes (skip_slashes path) r → Takes path r
    transfer none e = ap (map (cut 14)) (sym (elements-skip_slashes path)) ∙ e
    transfer (some (name, rest)) (e, lt, f) =
        let less = byte_count-skip_slashes path in
        (ap (map (cut 14)) (sym (elements-skip_slashes path)) ∙ e, omega arith, f)

module _ (sb : Super) (devsw : ℕ → Devsw) (me : ℕ) where
  turn-follow :
      (parent : Bool) (ip : ℕ) (seen path : List ℕ) (r : Option (List ℕ × List ℕ))
      (go : ℕ → List ℕ → List ℕ → M (Option (ℕ × List ℕ)))
      → Takes path r
      → ((next : ℕ) (name rest : List ℕ)
          → byte_count rest < byte_count path
          → go next name rest ≡ follow sb devsw me parent next name (names rest))
      → turn sb devsw me parent ip seen r go ≡ follow sb devsw me parent ip seen (names path)
  unfolding turn
  turn-follow parent ip seen path none go e ih =
      arrive-follow sb devsw me parent ip seen ∙ ap (follow sb devsw me parent ip seen) (sym e)
  turn-follow parent ip seen path (some (name, rest)) go (e, less, last) ih =
      ap (λ l. step_in sb devsw me parent ip name l (λ next. go next name rest)) last
      ∙ ap (step_in sb devsw me parent ip name (is_nil (names rest)))
          (fun_ext λ next. ih next name rest less)
      ∙ step_in-follow sb devsw me parent ip seen name (names rest)
      ∙ ap (follow sb devsw me parent ip seen) (sym e)

  walk-follow :
      (fuel : ℕ) (parent : Bool) (ip : ℕ) (seen path : List ℕ)
      → byte_count path < fuel
      → walk sb devsw me fuel parent ip seen path ≡ follow sb devsw me parent ip seen (names path)
  unfolding walk
  walk-follow zero parent ip seen path lt = absurd (omega arith)
  walk-follow (suc fuel) parent ip seen path lt =
      turn-follow parent ip seen path (skipelem path)
        (λ next name rest. walk sb devsw me fuel parent next name rest) (skipelem-Takes path)
        (λ next name rest less. walk-follow fuel parent next name rest (omega arith))

  -- The names of a path are its parts between the slashes, empty parts left out and each cut to DIRSIZ
  -- bytes. From the root or the current directory, namex() looks them up one after the other, each in
  -- the inode before it, locked, which must be a directory, and which is put back behind it. Where the
  -- parent is asked for, the last name is not looked up: its directory is unlocked and returned with
  -- the name, and a path of no names puts the inode back and fails. The loop ends with the path: its
  -- fuel is enough.
  pub namex-follow :
      (cwd : ℕ) (path : List ℕ) (parent : Bool)
      → namex sb devsw me cwd path parent
        ≡ (start sb devsw me cwd path >>= λ ip. follow sb devsw me parent ip [] (names path))
  unfolding namex
  namex-follow cwd path parent =
      ap (λ (m : M ℕ). m >>= λ ip. walk sb devsw me (byte_count path + 1) parent ip [] path)
        (first_inode-start sb devsw me cwd path)
      ∙ ap (λ go. start sb devsw me cwd path >>= go)
          (fun_ext λ ip. walk-follow (byte_count path + 1) parent ip [] path (omega arith))
