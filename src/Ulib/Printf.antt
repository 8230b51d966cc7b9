-- ===== src/Ulib/Printf.antt =====
-- printf.c: snprintf() of user programs. `args` has the words behind `fmt` on the stack, and `text` the
-- string at an address; a format and a string are the bytes before the NUL.
use large_project.Prelude.{
  ℕ, zero, suc, ◌+◌, ◌-◌, ◌/◌, ◌%◌, ◌^◌, Bool, true, false, ◌&&◌, ◌||◌, List, [], ◌∷◌, ◌++◌, ltb,
  leb, ◌==◌, if◌then◌else◌,
}
use large_project.Prelude.Param.{uint_mod}
use large_project.Strings.{Memory}
use large_project.Disk.{update}

-- s_sputc(): the character goes to `out + index`.
unfoldable pub s_sputc : Memory → ℕ → ℕ → ℕ → ℕ → Memory
s_sputc mem out len index c = if ltb index len then update mem (out + index) c else mem

-- "0123456789ABCDEF"
abbrev pub upper_digit : ℕ → ℕ
upper_digit d = if ltb d 10 then 48 + d else 55 + d

-- The first loop of s_getReverseDigits(), which stops `k` characters on at the latest.
unfoldable pub low_digits : ℕ → ℕ → ℕ → List ℕ
low_digits zero x base = []
low_digits (suc k) x base =
    let rest = low_digits k (x / base) base in if x == 0 then [] else upper_digit (x % base) ∷ rest

-- s_getReverseDigits() into a buffer of 16 characters, of which the digits take 15 at most.
unfoldable pub s_get_reverse_digits : ℕ → ℕ → Bool → List ℕ
s_get_reverse_digits xx base sgn =
    let neg = sgn && leb (2 ^ 31) xx in
    let ds = low_digits 15 (if neg then uint_mod - xx else xx) base in
    (if xx == 0 then 48 ∷ [] else ds) ++ (if neg then 45 ∷ [] else [])

unfoldable pub reversed : List ℕ → List ℕ → List ℕ
reversed [] to = to
reversed (c ∷ cs) to = reversed cs (c ∷ to)

unfoldable pub size_of : List ℕ → ℕ
size_of [] = 0
size_of (c ∷ cs) = suc (size_of cs)

-- The loop of s_printint() from `j` on: it stops at the end of the buffer.
unfoldable pub put_digits : Memory → ℕ → ℕ → ℕ → List ℕ → Memory
put_digits mem out len j [] = mem
put_digits mem out len j (c ∷ cs) =
    let rest = put_digits (s_sputc mem out len j c) out len (j + 1) cs in
    if ltb j len then rest else mem

-- The loop of `%s`, which goes on behind the end of the buffer.
unfoldable pub put_text : Memory → ℕ → ℕ → ℕ → List ℕ → Memory
put_text mem out len index [] = mem
put_text mem out len index (c ∷ cs) = put_text (s_sputc mem out len index c) out len (index + 1) cs

-- The variables of s_printf(): the buffer, `outindex`, the words read at `ap`, and `state`.
pub record Printer : Type 0 where
  pub mem : Memory
  pub index : ℕ
  pub ap : ℕ
  pub percent : Bool

-- "(null)"
abbrev pub null_text : List ℕ
null_text = 40 ∷ 110 ∷ 117 ∷ 108 ∷ 108 ∷ 41 ∷ []

module _ (out len : ℕ) (args : ℕ → ℕ) (text : ℕ → List ℕ) where
  -- putcFunction(fd, outbuffer, length, outindex++, c)
  unfoldable pub put_char : Printer → ℕ → Printer
  put_char p c = record p { mem = s_sputc p.mem out len p.index c; index = p.index + 1 }

  unfoldable pub put_number : Printer → ℕ → Bool → Printer
  put_number p base sgn =
      let ds = s_get_reverse_digits (args p.ap) base sgn in
      record p {
        mem = put_digits p.mem (out + p.index) (len - p.index) 0 (reversed ds []);
        index = p.index + size_of ds;
        ap = p.ap + 1;
      }

  unfoldable pub put_string : Printer → Printer
  put_string p =
      let s = if args p.ap == 0 then null_text else text (args p.ap) in
      record p {
        mem = put_text p.mem out len p.index s;
        index = p.index + size_of s;
        ap = p.ap + 1;
      }

  -- The character behind '%': d, x or p, s, c, '%', and any other.
  unfoldable pub put_conversion : Printer → ℕ → Printer
  put_conversion p c =
      if c == 100
      then put_number p 10 true
      else if c == 120 || c == 112
      then put_number p 16 false
      else if c == 115
      then put_string p
      else if c == 99
      then (record (put_char p (args p.ap % 256)) { ap = p.ap + 1 })
      else if c == 37
      then put_char p c
      else put_char (put_char p 37) c

  unfoldable pub put_step : Printer → ℕ → Printer
  put_step p c =
      if p.percent
      then (record (put_conversion p c) { percent = false })
      else if c == 37
      then (record p { percent = true })
      else put_char p c

  -- The loop of s_printf().
  unfoldable pub print_loop : Printer → List ℕ → Printer
  print_loop p [] = p
  print_loop p (c ∷ fmt) =
      let rest = print_loop (put_step p c) fmt in if ltb p.index len then rest else p

-- s_printf() with s_sputc(): the buffer, and s_min(length, outindex). `length` is n - 1, an `int` that
-- the comparisons take as `uint`.
unfoldable pub s_printf : Memory → ℕ → ℕ → List ℕ → (ℕ → ℕ) → (ℕ → List ℕ) → Memory × ℕ
s_printf mem out n fmt args text =
    let len = (n + uint_mod - 1) % uint_mod in
    let p =
      print_loop out len args text (record { mem = mem; index = 0; ap = 0; percent = false }) fmt in
    (p.mem, if ltb len p.index then len else p.index)

unfoldable pub snprintf : Memory → ℕ → ℕ → List ℕ → (ℕ → ℕ) → (ℕ → List ℕ) → Memory × ℕ
snprintf mem out n fmt args text =
    let r = s_printf mem out n fmt args text in
    (if ltb r.1 n then update r.0 (out + r.1) 0 else r.0, r.1)
