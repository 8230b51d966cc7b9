-- ===== src/Console/Keys.antt =====
-- The three indices stay in order, whatever is typed.
use large_project.Prelude.{
  ℕ, zero, suc, ◌%◌, ◌≤◌, ◌<◌, ◌≡◌, inl, inr, true, false, not, ◌&&◌, ◌||◌, List, [], ◌∷◌, ltb,
  ◌==◌, arith, Bool-cases,
}
use large_project.Prelude.Param.{uint_mod}
use large_project.Console.{
  Input, input_buf, dec, span, rub_out, kill_line, typed, put_key, hand_over, ends_line, store, key,
  consoleintr,
}

-- From `r` on come `w` and then `e`, at most INPUT_BUF away.
pub record IsValid (i : Input) : Type 0 where
  pub r_lt : i.r < uint_mod
  pub w_lt : i.w < uint_mod
  pub e_lt : i.e < uint_mod
  pub ordered : span i.r i.w ≤ span i.r i.e
  pub bounded : span i.r i.e ≤ input_buf

rub_out-IsValid : (i : Input) → IsValid i → (i.e == i.w) ≡ false → IsValid (rub_out i)
rub_out-IsValid i v h = record {
  r_lt = v.r_lt;
  w_lt = v.w_lt;
  e_lt = omega arith;
  ordered = ground (arith, v.r_lt, v.w_lt, v.e_lt, v.ordered, v.bounded);
  bounded = ground (arith, v.r_lt, v.w_lt, v.e_lt, v.ordered, v.bounded);
}

kill_line-IsValid : (n : ℕ) (i : Input) → IsValid i → IsValid (kill_line n i)
unfolding kill_line
kill_line-IsValid zero i v = v
kill_line-IsValid (suc n) i v = elim (Bool-cases (i.e == i.w)) [
  | inl y ↦ rw y v
  | inr y ↦ elim (Bool-cases (i.buf (dec i.e % input_buf) == 10)) [
    | inl z ↦ rw (y, z) v
    | inr z ↦ rw (y, z) (kill_line-IsValid n (rub_out i) (rub_out-IsValid i v y))
  ]
]

put_key-IsValid :
    (c : ℕ) (i : Input) → IsValid i → ltb (span i.r i.e) input_buf ≡ true → IsValid (put_key c i)
put_key-IsValid c i v h = record {
  r_lt = v.r_lt;
  w_lt = v.w_lt;
  e_lt = omega arith;
  ordered = ground (arith, v.r_lt, v.w_lt, v.e_lt, v.ordered, v.bounded);
  bounded = ground (arith, v.r_lt, v.w_lt, v.e_lt, v.ordered, v.bounded);
}

hand_over-IsValid : (i : Input) → IsValid i → IsValid (hand_over i)
hand_over-IsValid i v = record {
  r_lt = v.r_lt;
  w_lt = v.e_lt;
  e_lt = v.e_lt;
  ordered = omega arith;
  bounded = v.bounded;
}

store-IsValid : (c : ℕ) (i : Input) → IsValid i → IsValid (store c i)
unfolding store
store-IsValid c i v = elim (Bool-cases (not (c == 0) && ltb (span i.r i.e) input_buf)) [
  | inl y ↦
      let put = put_key-IsValid (typed c) i v (ground (arith, y)) in
      elim (Bool-cases (ends_line (typed c) (put_key (typed c) i))) [
        | inl z ↦ rw (y, z) (hand_over-IsValid (put_key (typed c) i) put)
        | inr z ↦ rw (y, z) put
      ]
  | inr y ↦ rw y v
]

key-IsValid : (c : ℕ) (i : Input) → IsValid i → IsValid (key c i)
unfolding key
key-IsValid c i v = elim (Bool-cases (c == 16)) [
  | inl a ↦ rw a v
  | inr a ↦ elim (Bool-cases (c == 21)) [
    | inl b ↦ rw (a, b) (kill_line-IsValid input_buf i v)
    | inr b ↦ elim (Bool-cases (c == 8 || c == 127)) [
      | inl d ↦ elim (Bool-cases (i.e == i.w)) [
        | inl f ↦ rw (a, b, d, f) v
        | inr f ↦ rw (a, b, d, f) (rub_out-IsValid i v f)
      ]
      | inr d ↦ rw (a, b, d) (store-IsValid c i v)
    ]
  ]
]

-- Whatever characters consoleintr() is given, on a ring whose indices are in order, it leaves them in
-- order: what may be read ends before the line that is edited, which ends at most INPUT_BUF
-- characters behind the next one to read, though the indices wrap at 2^32.
pub consoleintr-IsValid : (cs : List ℕ) (i : Input) → IsValid i → IsValid (consoleintr cs i).0
unfolding consoleintr
consoleintr-IsValid [] i v = v
consoleintr-IsValid (c ∷ cs) i v = consoleintr-IsValid cs (key c i) (key-IsValid c i v)
