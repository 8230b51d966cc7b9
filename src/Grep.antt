-- ===== src/Grep.antt =====
-- grep.c: the matcher for regular expressions with `^`, `$`, `.` and `*`. A string of the program is
-- the list of its characters before the NUL.
pub mod Meaning
mod Tests
use large_project.Prelude.{ℕ, Bool, true, false, ◌&&◌, ◌||◌, List, [], ◌∷◌, ◌==◌, if◌then◌else◌}

-- The characters '^', '$', '.' and '*'.
abbrev pub caret : ℕ
caret = 94

abbrev pub dollar : ℕ
dollar = 36

abbrev pub dot : ℕ
dot = 46

abbrev pub star : ℕ
star = 42

-- Does the character `c` of an expression stand for the character `x` of a text?
abbrev pub stands_for : ℕ → ℕ → Bool
stands_for c x = c == dot || c == x

-- matchstar(), for the matchhere() of the expression behind the star.
unfoldable pub matchstar : (List ℕ → Bool) → ℕ → List ℕ → Bool
matchstar here c [] = here []
matchstar here c (x ∷ text) =
    let rest = matchstar here c text in here (x ∷ text) || ((x == c || c == dot) && rest)

-- matchhere() of an expression that does not start with a starred character or a last '$'.
unfoldable pub match_one : (List ℕ → Bool) → ℕ → List ℕ → Bool
match_one here c [] = false
match_one here c (x ∷ text) = (c == dot || c == x) && here text

abbrev pub is_end : List ℕ → Bool
is_end [] = true
is_end (x ∷ text) = false

unfoldable pub matchhere : List ℕ → List ℕ → Bool
matchhere [] text = true
matchhere (c ∷ []) text = if c == dollar then is_end text else match_one (matchhere []) c text
matchhere (c ∷ d ∷ re) text =
    let starred = matchstar (matchhere re) c text in
    let single = match_one (matchhere (d ∷ re)) c text in if d == star then starred else single

-- The loop of match(), which looks at the empty rest of the text too.
unfoldable pub search : List ℕ → List ℕ → Bool
search re [] = matchhere re []
search re (x ∷ text) = let rest = search re text in matchhere re (x ∷ text) || rest

unfoldable pub match : List ℕ → List ℕ → Bool
unfolding search
match [] text = search [] text
match (c ∷ re) text = if c == caret then matchhere re text else search (c ∷ re) text
