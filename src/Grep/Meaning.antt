-- ===== src/Grep/Meaning.antt =====
-- What an expression means, and that grep.c's matcher decides it.
use large_project.Prelude.{
  ℕ, ◌≡◌, refl, sym, ap, ◌≢◌, ◌⊎◌, inl, inr, ◌↔◌, Bool, true, List, [], ◌∷◌, ◌++◌, arith,
  ℕ_discrete, Bool-cases, subst,
}
use large_project.Grep.{
  caret, dollar, star, stands_for, matchstar, match_one, is_end, matchhere, search, match,
}

-- Each character of a text is one that `c` stands for.
pub data AllStandFor (c : ℕ) : List ℕ → Type 0 where
  none_left : AllStandFor c []
  one_more : (x : ℕ) (w : List ℕ) → stands_for c x ≡ true → AllStandFor c w → AllStandFor c (x ∷ w)

-- A character counts as itself in front of `re`: it has no star, and is not a '$' at the end.
abbrev pub IsPlain : ℕ → List ℕ → Type 0
IsPlain c [] = c ≢ dollar
IsPlain c (d ∷ re) = d ≢ star

-- `MatchesAt re t`: the expression `re` matches a prefix of `t`.
pub data MatchesAt : List ℕ → List ℕ → Type 0 where
  nothing : (t : List ℕ) → MatchesAt [] t
  at_end : MatchesAt (dollar ∷ []) []
  one :
      (c x : ℕ) (re t : List ℕ)
      → IsPlain c re
      → stands_for c x ≡ true
      → MatchesAt re t
      → MatchesAt (c ∷ re) (x ∷ t)
  many :
      (c : ℕ) (re w t : List ℕ)
      → AllStandFor c w
      → MatchesAt re t
      → MatchesAt (c ∷ star ∷ re) (w ++ t)

matchstar-split :
    (here : List ℕ → Bool) (c : ℕ) (t : List ℕ)
    → matchstar here c t ≡ true
    → (w : List ℕ) × (u : List ℕ) × (t ≡ w ++ u) × AllStandFor c w × (here u ≡ true)
unfolding matchstar
matchstar-split here c [] h = ([], [], refl, none_left, h)
matchstar-split here c (x ∷ t) h = elim (Bool-cases (here (x ∷ t))) [
  | inl y ↦ ([], x ∷ t, refl, none_left, y)
  | inr n ↦
      (let (w, u, e, a, m) = matchstar-split here c t (ground arith) in
        (x ∷ w, u, ap (λ l. x ∷ l) e, one_more x w (ground arith) a, m))
]

split-matchstar :
    (here : List ℕ → Bool) (c : ℕ) (w u : List ℕ)
    → AllStandFor c w
    → here u ≡ true
    → matchstar here c (w ++ u) ≡ true
unfolding matchstar
split-matchstar here c [] [] a h = h
split-matchstar here c [] (x ∷ u) a h = ground arith
split-matchstar here c _ u (one_more x w s a) h =
    let ih = split-matchstar here c w u a h in ground arith

match_one-split :
    (here : List ℕ → Bool) (c : ℕ) (t : List ℕ)
    → match_one here c t ≡ true
    → (x : ℕ) × (u : List ℕ) × (t ≡ x ∷ u) × (stands_for c x ≡ true) × (here u ≡ true)
unfolding match_one
match_one-split here c [] h = ground arith
match_one-split here c (x ∷ t) h = (x, t, refl, ground arith, ground arith)

is_end-MatchesAt : (c : ℕ) (t : List ℕ) → c ≡ dollar → is_end t ≡ true → MatchesAt (c ∷ []) t
is_end-MatchesAt c [] e h = subst (λ d. MatchesAt (d ∷ []) []) (sym e) at_end
is_end-MatchesAt c (x ∷ t) e h = ground arith

match_one-MatchesAt :
    (c : ℕ) (re t : List ℕ)
    → IsPlain c re
    → ((u : List ℕ) → matchhere re u ≡ true → MatchesAt re u)
    → match_one (matchhere re) c t ≡ true
    → MatchesAt (c ∷ re) t
match_one-MatchesAt c re t p ih h =
    let (x, u, e, s, m) = match_one-split (matchhere re) c t h in
    subst (MatchesAt (c ∷ re)) (sym e) (one c x re u p s (ih u m))

matchstar-MatchesAt :
    (c d : ℕ) (re t : List ℕ)
    → d ≡ star
    → ((u : List ℕ) → matchhere re u ≡ true → MatchesAt re u)
    → matchstar (matchhere re) c t ≡ true
    → MatchesAt (c ∷ d ∷ re) t
matchstar-MatchesAt c d re t e ih h =
    let (w, u, s, a, m) = matchstar-split (matchhere re) c t h in
    subst (λ k. MatchesAt (c ∷ k ∷ re) t) (sym e)
      (subst (MatchesAt (c ∷ star ∷ re)) (sym s) (many c re w u a (ih u m)))

matchhere-MatchesAt : (re t : List ℕ) → matchhere re t ≡ true → MatchesAt re t
unfolding matchhere
matchhere-MatchesAt [] t h = nothing t
matchhere-MatchesAt (c ∷ []) t h = elim (ℕ_discrete c dollar) [
  | yes y ↦ is_end-MatchesAt c t y (ground arith)
  | no n ↦ match_one-MatchesAt c [] t n (λ u m. matchhere-MatchesAt [] u m) (ground arith)
]
matchhere-MatchesAt (c ∷ d ∷ re) t h = elim (ℕ_discrete d star) [
  | yes y ↦ matchstar-MatchesAt c d re t y (λ u m. matchhere-MatchesAt re u m) (ground arith)
  | no n ↦
      match_one-MatchesAt c (d ∷ re) t n (λ u m. matchhere-MatchesAt (d ∷ re) u m) (ground arith)
]

plain-matchhere :
    (c x : ℕ) (re t : List ℕ)
    → IsPlain c re
    → stands_for c x ≡ true
    → matchhere re t ≡ true
    → matchhere (c ∷ re) (x ∷ t) ≡ true
unfolding matchhere match_one
plain-matchhere c x [] t p s m = ground arith
plain-matchhere c x (d ∷ re) t p s m = ground arith

MatchesAt-matchhere : {re t : List ℕ} → MatchesAt re t → matchhere re t ≡ true
unfolding matchhere
MatchesAt-matchhere (nothing t) = refl
MatchesAt-matchhere at_end = refl
MatchesAt-matchhere (one c x re t p s m) = plain-matchhere c x re t p s (MatchesAt-matchhere m)
MatchesAt-matchhere (many c re w t a m) =
    split-matchstar (matchhere re) c w t a (MatchesAt-matchhere m)

-- `Finds re t`: the expression, which is not anchored, matches at some place in `t`.
pub data Finds (re : List ℕ) : List ℕ → Type 0 where
  at_start : (t : List ℕ) → MatchesAt re t → Finds re t
  later : (x : ℕ) (t : List ℕ) → Finds re t → Finds re (x ∷ t)

search-Finds : (re t : List ℕ) → search re t ≡ true → Finds re t
unfolding search
search-Finds re [] h = at_start [] (matchhere-MatchesAt re [] h)
search-Finds re (x ∷ t) h = elim (Bool-cases (matchhere re (x ∷ t))) [
  | inl y ↦ at_start (x ∷ t) (matchhere-MatchesAt re (x ∷ t) y)
  | inr n ↦ later x t (search-Finds re t (ground arith))
]

Finds-search : (re : List ℕ) {t : List ℕ} → Finds re t → search re t ≡ true
unfolding search
Finds-search re (at_start [] m) = MatchesAt-matchhere m
Finds-search re (at_start (x ∷ t) m) = let here = MatchesAt-matchhere m in ground arith
Finds-search re (later x t f) = let rest = Finds-search re f in ground arith

-- `Matches re t`: what `re` asks of a text, at its beginning after a '^' and anywhere otherwise.
abbrev pub Matches : List ℕ → List ℕ → Type 0
Matches [] t = Finds [] t
Matches (c ∷ re) t = ((c ≡ caret) × MatchesAt re t) ⊎ ((c ≢ caret) × Finds (c ∷ re) t)

-- match(re, text) returns 1 exactly when the expression matches the text in the sense of the relation
-- `Matches`: a starred character stands for any number of characters, '.' for any character, a last
-- '$' for the end of the text, and all others for themselves.
pub match-Matches : (re t : List ℕ) → (match re t ≡ true) ↔ Matches re t
unfolding match
match-Matches [] t = (search-Finds [] t, Finds-search [])
match-Matches (c ∷ re) t = (there, back)
  where
    there : match (c ∷ re) t ≡ true → Matches (c ∷ re) t
    there h = elim (ℕ_discrete c caret) [
      | yes y ↦ inl (y, matchhere-MatchesAt re t (ground arith))
      | no n ↦ inr (n, search-Finds (c ∷ re) t (ground arith))
    ]

    back : Matches (c ∷ re) t → match (c ∷ re) t ≡ true
    back (inl (y, m)) = let found = MatchesAt-matchhere m in ground arith
    back (inr (n, f)) = let found = Finds-search (c ∷ re) f in ground arith
