-- ===== src/Console.antt =====
-- console.c: the keys that are typed, in a ring with three indices: `r` to read, `w` to the end of what
-- may be read, and `e` to the end of the line that is edited. What `cons.lock` encloses between two
-- sleeps is one step.
pub mod Keys
mod Tests
use large_project.Prelude.{
  ℕ, zero, suc, ◌+◌, ◌-◌, ◌%◌, ◌/◌, ◌^◌, ◌++◌, leb, Bool, true, false, not, ◌&&◌, ◌||◌, List, [],
  ◌∷◌, ltb, ◌==◌, if◌then◌else◌,
}
use large_project.Prelude.Param.{uint_mod}
use large_project.Disk.{update}

-- INPUT_BUF
abbrev pub input_buf : ℕ
input_buf = 128

-- BACKSPACE
abbrev pub backspace : ℕ
backspace = 0x100

-- `input`, how many processes sleep on `&input.r`, and the characters given to consputc(), the last
-- one first.
pub record Input : Type 0 where
  pub buf : ℕ → ℕ
  pub r : ℕ
  pub w : ℕ
  pub e : ℕ
  pub readers : ℕ
  pub screen : List ℕ

-- The `uint` operations x++ and x--.
abbrev pub inc : ℕ → ℕ
inc x = (x + 1) % uint_mod

abbrev pub dec : ℕ → ℕ
dec x = (x + (uint_mod - 1)) % uint_mod

-- `uint` subtraction: y - x
abbrev pub span : ℕ → ℕ → ℕ
span x y = (y + uint_mod - x) % uint_mod

-- input.e--; consputc(BACKSPACE);
abbrev pub rub_out : Input → Input
rub_out i = record i { e = dec i.e; screen = backspace ∷ i.screen }

-- The loop of ^U; the fuel bounds the characters in the ring.
unfoldable pub kill_line : ℕ → Input → Input
kill_line zero i = i
kill_line (suc n) i =
    let rest = kill_line n (rub_out i) in
    if i.e == i.w then i else if i.buf (dec i.e % input_buf) == 10 then i else rest

-- A character that is stored.
abbrev pub typed : ℕ → ℕ
typed c = if c == 13 then 10 else c

abbrev pub put_key : ℕ → Input → Input
put_key c i = record i {
  buf = update i.buf (i.e % input_buf) c;
  e = inc i.e;
  screen = c ∷ i.screen;
}

-- input.w = input.e; wakeup(&input.r);
abbrev pub hand_over : Input → Input
hand_over i = record i { w = i.e; readers = 0 }

abbrev pub ends_line : ℕ → Input → Bool
ends_line c i = c == 10 || c == 4 || i.e == (i.r + input_buf) % uint_mod

-- The default case of the switch.
unfoldable pub store : ℕ → Input → Input
store c i =
    let i' = put_key (typed c) i in
    if not (c == 0) && ltb (span i.r i.e) input_buf
    then if ends_line (typed c) i' then hand_over i' else i'
    else i

-- The switch; ^P is handled by `consoleintr`.
unfoldable pub key : ℕ → Input → Input
unfolding store kill_line
key c i =
    if c == 16
    then i
    else if c == 21
    then kill_line input_buf i
    else if c == 8 || c == 127
    then if i.e == i.w then i else rub_out i
    else store c i

-- consoleintr() of the characters that getc() returns: the ring, and whether procdump() is called.
unfoldable pub consoleintr : List ℕ → Input → Input × Bool
unfolding key
consoleintr [] i = (i, false)
consoleintr (c ∷ cs) i = let rest = consoleintr cs (key c i) in (rest.0, c == 16 || rest.1)

-- How a call of consoleread() goes on: it fails, sleeps on `&input.r`, or returns; with the bytes that
-- it has stored.
pub data Line : Type 0 where
  fails : List ℕ → Line
  sleeps : List ℕ → Line
  returns : List ℕ → Line

abbrev pub after_byte : ℕ → Line → Line
after_byte c (fails l) = fails (c ∷ l)
after_byte c (sleeps l) = sleeps (c ∷ l)
after_byte c (returns l) = returns (c ∷ l)

-- The loop of consoleread(), of `target` bytes, with `n` to go.
unfoldable pub consoleread : Bool → ℕ → ℕ → Input → Line × Input
consoleread killed target zero i = (returns [], i)
consoleread killed target (suc n) i =
    let c = i.buf (i.r % input_buf) in
    let i' = record i { r = inc i.r } in
    let rest = consoleread killed target n i' in
    if i.r == i.w
    then if killed then (fails [], i) else (sleeps [], record i { readers = i.readers + 1 })
    else if c == 4
    then (returns [], if ltb (suc n) target then record i' { r = dec i'.r } else i')
    else if c == 10
    then (returns (c ∷ []), i')
    else (after_byte c rest.0, rest.1)

-- digits[d]
abbrev pub lower_digit : ℕ → ℕ
lower_digit d = if ltb d 10 then 48 + d else 87 + d

-- The do loop of printint(), the lowest digit first; the fuel is one less than the room in `buf`.
unfoldable pub print_digits : ℕ → ℕ → ℕ → List ℕ
print_digits zero x base = lower_digit (x % base) ∷ []
print_digits (suc k) x base =
    let rest = print_digits k (x / base) base in
    if x / base == 0 then lower_digit (x % base) ∷ [] else lower_digit (x % base) ∷ rest

-- printint(): the characters that it gives to consputc() before those in `screen`. As `xx` counts
-- the 32-bit word that represents the `int`.
unfoldable pub printint : ℕ → ℕ → Bool → List ℕ → List ℕ
unfolding print_digits
printint xx base sign screen =
    let minus = sign && leb (2 ^ 31) xx in
    let ds = print_digits 15 (if minus then 2 ^ 32 - xx else xx) base in
    (ds ++ (if minus then 45 ∷ [] else [])) ++ screen
