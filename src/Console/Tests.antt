-- ===== src/Console/Tests.antt =====
-- "a", a backspace, "b" and a new line.
use large_project.Prelude.{[], ◌∷◌, arith}
use large_project.Console.{Input, consoleintr}
use large_project.Console.Keys.{IsValid, consoleintr-IsValid}

-- An empty ring whose indices are about to wrap.
abbrev empty_ring : Input
empty_ring = record {
  buf = λ a. 0;
  r = 4294967295;
  w = 4294967295;
  e = 4294967295;
  readers = 1;
  screen = [];
}

empty_ring-IsValid : IsValid empty_ring
empty_ring-IsValid = record {
  r_lt = omega arith;
  w_lt = omega arith;
  e_lt = omega arith;
  ordered = omega arith;
  bounded = omega arith;
}

consoleintr-IsValid_example : IsValid (consoleintr (97 ∷ 8 ∷ 98 ∷ 10 ∷ []) empty_ring).0
consoleintr-IsValid_example =
    consoleintr-IsValid (97 ∷ 8 ∷ 98 ∷ 10 ∷ []) empty_ring empty_ring-IsValid
