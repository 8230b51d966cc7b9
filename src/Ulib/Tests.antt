-- ===== src/Ulib/Tests.antt =====
-- snprintf() of a number into four bytes.
use large_project.Prelude.{ℕ, ◌≡◌, refl, List, [], ◌∷◌, arith}
use large_project.Strings.{Memory}
use large_project.Ulib.Printf.{
  s_sputc, low_digits, s_get_reverse_digits, reversed, size_of, put_digits, put_char, put_number,
  put_conversion, put_step, print_loop, s_printf, snprintf,
}
use large_project.Ulib.Bounded.{Prints, snprintf-Prints}

-- "x%d"
abbrev format : List ℕ
format = 120 ∷ 37 ∷ 100 ∷ []

abbrev printed : Memory × ℕ
printed = snprintf (λ a. 7) 100 4 format (λ i. 12345) (λ p. [])

-- "x12" and the NUL
printed_test :
    (printed.1 ≡ 3)
    × (printed.0 100 ≡ 120)
    × (printed.0 101 ≡ 49)
    × (printed.0 102 ≡ 50)
    × (printed.0 103 ≡ 0)
    × (printed.0 104 ≡ 7)
unfolding snprintf s_printf print_loop put_step put_conversion put_char put_number put_digits
    s_get_reverse_digits low_digits reversed size_of s_sputc
printed_test = (refl, refl, refl, refl, refl, refl)

snprintf-Prints_example : Prints (λ a. 7) 100 4 printed
snprintf-Prints_example =
    snprintf-Prints (λ a. 7) 100 4 format (λ i. 12345) (λ p. []) (omega arith) (omega arith)
