-- ===== src/Strings/Tests.antt =====
-- Copies in a memory that counts up, and one with a string.
use large_project.Prelude.{ℕ, ◌+◌, ◌-◌, ◌≡◌, inl, false, if◌then◌else◌, ltb, ◌==◌, arith}
use large_project.Strings.{Memory, memmove, strncpy, safestrcpy}
use large_project.Strings.Move.{in_range, memmove_lem}
use large_project.Strings.Copy.{c_byte, strncpy_lem, safestrcpy_lem}

-- The string "bcde" at address 2.
abbrev mem : Memory
mem a = if a == 6 then 0 else 96 + a

-- The ranges overlap: the bytes move up by one.
memmove_lem_example : memmove mem 3 2 4 5 ≡ (if in_range 3 4 5 then mem (2 + (5 - 3)) else mem 5)
memmove_lem_example = memmove_lem mem 3 2 4 5

strncpy_lem_example :
    strncpy mem 20 2 8 26 ≡ (if in_range 20 8 26 then c_byte mem 2 (26 - 20) else mem 26)
strncpy_lem_example = strncpy_lem mem 20 2 8 26 (inl (omega arith))

safestrcpy_lem_example :
    ((i : ℕ) → c_byte (safestrcpy mem 20 2 3) 20 i ≡ (if ltb i 2 then c_byte mem 2 i else 0))
    × ((a : ℕ) → in_range 20 3 a ≡ false → safestrcpy mem 20 2 3 a ≡ mem a)
safestrcpy_lem_example = safestrcpy_lem mem 20 2 2 (inl (omega arith))
