-- ===== src/Grep/Tests.antt =====
-- The expression "^a*b$" and the text "aab".
use large_project.Prelude.{ℕ, ◌≡◌, ◌↔◌, refl, true, false, List, [], ◌∷◌}
use large_project.Grep.{match, search, matchhere, matchstar, match_one}
use large_project.Grep.Meaning.{Matches, match-Matches}

abbrev expression : List ℕ
expression = 94 ∷ 97 ∷ 42 ∷ 98 ∷ 36 ∷ []

abbrev aab : List ℕ
aab = 97 ∷ 97 ∷ 98 ∷ []

expression_matches : match expression aab ≡ true
unfolding match search matchhere matchstar match_one
expression_matches = refl

expression_fails : match expression (97 ∷ 98 ∷ 97 ∷ []) ≡ false
unfolding match search matchhere matchstar match_one
expression_fails = refl

match-Matches_example : (match expression aab ≡ true) ↔ Matches expression aab
match-Matches_example = match-Matches expression aab
