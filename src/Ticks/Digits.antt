-- ===== src/Ticks/Digits.antt =====
-- The digits that s_getReverse() stores.
use large_project.Prelude.{
  ℕ, zero, suc, ◌+◌, ◌*◌, ◌/◌, ◌^◌, ◌<◌, ◌≡◌, ◌≢◌, refl, ap, Bool, List, [], ◌∷◌, length, arith,
}
use large_project.Ticks.{digits, magnitude, reverse_digits}

-- The number that decimal digits denote, the lowest first.
abbrev pub value : List ℕ → ℕ
value [] = 0
value (d ∷ ds) = d + 10 * value ds

abbrev pow10 : ℕ → ℕ
pow10 zero = 1
pow10 (suc n) = 10 * pow10 n

value-digits : (n a : ℕ) → a < pow10 n → value (digits n a 10) ≡ a
unfolding digits
value-digits zero a h = omega arith
value-digits (suc n) a h = let ih = value-digits n (a / 10) (omega arith) in omega arith

length-digits : (n a base : ℕ) → length (digits n a base) ≡ n
unfolding digits
length-digits zero a base = refl
length-digits (suc n) a base = ap suc (length-digits n (a / base) base)

-- For every 32-bit `x` but 0, s_getReverse() into the 16 characters of s_printint() stores exactly 15
-- decimal digits, however small the number is; they denote its magnitude.
pub reverse_digits_lem :
    (x : ℕ) (sgn : Bool)
    → x ≢ 0
    → x < 2 ^ 32
    → (length (reverse_digits 16 x 10 sgn) ≡ 15)
      × (value (reverse_digits 16 x 10 sgn) ≡ magnitude sgn x)
unfolding reverse_digits
reverse_digits_lem x sgn ne lt =
    let len = length-digits 15 (magnitude sgn x) 10 in
    let val = value-digits 15 (magnitude sgn x) (ground arith) in (ground arith, ground arith)
