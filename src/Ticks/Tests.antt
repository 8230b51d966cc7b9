-- ===== src/Ticks/Tests.antt =====
-- The number 7.
use large_project.Prelude.{◌≡◌, true, length, arith}
use large_project.Ticks.{reverse_digits, magnitude}
use large_project.Ticks.Digits.{value, reverse_digits_lem}

reverse_digits_test :
    (length (reverse_digits 16 7 10 true) ≡ 15)
    × (value (reverse_digits 16 7 10 true) ≡ magnitude true 7)
reverse_digits_test = reverse_digits_lem 7 true (λ e. omega arith) (omega arith)
