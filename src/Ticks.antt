-- ===== src/Ticks.antt =====
-- ticks.c: numbers and formats printed into a buffer, for the device that tells the ticks.
pub mod Digits
mod Tests
use large_project.Prelude.{
  ℕ, zero, suc, ◌+◌, ◌-◌, ◌*◌, ◌/◌, ◌%◌, ◌^◌, Bool, true, false, not, ◌&&◌, List, [], ◌∷◌, ◌++◌,
  ltb, leb, ◌==◌, if◌then◌else◌, length,
}
use large_project.Disk.{update}
use large_project.Strings.{Memory}

-- digs[d]
abbrev pub digit_char : ℕ → ℕ
digit_char d = if ltb d 10 then 48 + d else 55 + d

-- The loop of s_getReverse() for an `x` that is not 0, with room for `n` more: it tests `x`, which it
-- does not change, so that the room alone ends it.
unfoldable pub digits : ℕ → ℕ → ℕ → List ℕ
digits zero a base = []
digits (suc n) a base = a % base ∷ digits n (a / base) base

abbrev pub chars : List ℕ → List ℕ
chars [] = []
chars (d ∷ ds) = digit_char d ∷ chars ds

-- Is the `int` that `x` represents negative, and signs wanted?
abbrev pub is_minus : Bool → ℕ → Bool
is_minus sgn x = sgn && leb (2 ^ 31) x

-- `a`: -x as a `uint`, or x
abbrev pub magnitude : Bool → ℕ → ℕ
magnitude sgn x = if is_minus sgn x then 2 ^ 32 - x else x

-- What stands in the buffer before the sign.
unfoldable pub reverse_digits : ℕ → ℕ → ℕ → Bool → List ℕ
unfolding digits
reverse_digits len x base sgn =
    if x == 0 then if ltb 1 len then 0 ∷ [] else [] else digits (len - 1) (magnitude sgn x) base

-- s_getReverse() into a buffer of `len` characters: what it has stored, whose number it returns.
unfoldable pub s_get_reverse : ℕ → ℕ → ℕ → Bool → List ℕ
unfolding reverse_digits
s_get_reverse len x base sgn =
    let ds = chars (reverse_digits len x base sgn) in
    if is_minus sgn x && ltb (length ds) len then ds ++ (45 ∷ []) else ds

-- The loop of s_printint() from `j` on over the rest of the buffer, last character first, where
-- s_sputc() stores below `len`.
unfoldable pub store_from : Memory → ℕ → ℕ → ℕ → List ℕ → Memory
store_from mem out len j [] = mem
store_from mem out len j (c ∷ cs) =
    let rest = store_from (update mem (out + j) c) out len (j + 1) cs in
    if ltb j len then rest else mem

abbrev pub reverse_onto : List ℕ → List ℕ → List ℕ
reverse_onto [] acc = acc
reverse_onto (c ∷ cs) acc = reverse_onto cs (c ∷ acc)

-- s_printint() with s_sputc(): the memory, and the number that it returns.
unfoldable pub s_printint : Memory → ℕ → ℕ → ℕ → ℕ → Bool → Memory × ℕ
unfolding s_get_reverse store_from
s_printint mem out len x base sgn =
    let cs = s_get_reverse 16 x base sgn in
    (store_from mem out len 0 (reverse_onto cs []), length cs)

-- The loop of s_cnputs() from `itr` on, with `n` bytes of room left: the memory, and `itr` at its end.
unfoldable pub copy_chars : Memory → ℕ → ℕ → ℕ → ℕ → Memory × ℕ
copy_chars mem out str itr zero = (mem, itr)
copy_chars mem out str itr (suc n) =
    let rest = copy_chars (update mem (out + itr) (mem (str + itr))) out str (itr + 1) n in
    if mem (str + itr) == 0 then (mem, itr) else rest

-- s_cnputs() of ticks.c, whose result counts the NUL too, and one more where no NUL fitted.
unfoldable pub s_cnputs : Memory → ℕ → ℕ → ℕ → Memory × ℕ
unfolding copy_chars
s_cnputs mem out n str =
    let r = copy_chars mem out str 0 n in
    ((if ltb r.1 n then update r.0 (out + r.1) 0 else r.0), r.1 + 1)
