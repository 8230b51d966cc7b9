-- ===== src/Fs/Bits.antt =====
-- The bits of a byte, as the code reads and writes them with the mask `1 << k`.
use large_project.Prelude.{
  ℕ, zero, suc, ◌+◌, ◌*◌, ◌/◌, ◌%◌, ◌≡◌, ◌∙◌, Bool, true, false, ◌==◌, if◌then◌else◌, arith,
}

-- (x & (1 << k)) != 0
unfoldable pub test_bit : ℕ → ℕ → Bool
test_bit x zero = x % 2 == 1
test_bit x (suc k) = test_bit (x / 2) k

-- x | (1 << k)
unfoldable pub set_bit : ℕ → ℕ → ℕ
set_bit x zero = x / 2 * 2 + 1
set_bit x (suc k) = set_bit (x / 2) k * 2 + x % 2

-- x & ~(1 << k)
unfoldable pub clear_bit : ℕ → ℕ → ℕ
clear_bit x zero = x / 2 * 2
clear_bit x (suc k) = clear_bit (x / 2) k * 2 + x % 2

half : (y x : ℕ) → (y * 2 + x % 2) / 2 ≡ y
half y x = omega arith

half_odd : (y : ℕ) → (y * 2 + 1) / 2 ≡ y
half_odd y = omega arith

half_even : (y : ℕ) → y * 2 / 2 ≡ y
half_even y = omega arith

pub test_bit-set_bit :
    (x k j : ℕ) → test_bit (set_bit x k) j ≡ (if k == j then true else test_bit x j)
unfolding test_bit set_bit
test_bit-set_bit x zero zero = ground arith
test_bit-set_bit x zero (suc j) = rw (half_odd (x / 2)) (ground arith)
test_bit-set_bit x (suc k) zero = ground arith
test_bit-set_bit x (suc k) (suc j) =
    rw (half (set_bit (x / 2) k) x) (test_bit-set_bit (x / 2) k j ∙ ground arith)

pub test_bit-clear_bit :
    (x k j : ℕ) → test_bit (clear_bit x k) j ≡ (if k == j then false else test_bit x j)
unfolding test_bit clear_bit
test_bit-clear_bit x zero zero = ground arith
test_bit-clear_bit x zero (suc j) = rw (half_even (x / 2)) (ground arith)
test_bit-clear_bit x (suc k) zero = ground arith
test_bit-clear_bit x (suc k) (suc j) =
    rw (half (clear_bit (x / 2) k) x) (test_bit-clear_bit (x / 2) k j ∙ ground arith)
