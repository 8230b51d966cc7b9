-- ===== src/Ulib/Bounded.antt =====
-- snprintf() stays in its buffer.
use large_project.Prelude.{
  ℕ, ◌+◌, ◌-◌, ◌%◌, ◌^◌, ◌≤◌, ◌<◌, ◌≡◌, refl, ◌∙◌, ◌⊎◌, inl, inr, Bool, true, false, ◌||◌, List, [],
  ◌∷◌, ltb, ◌==◌, if◌then◌else◌, arith, Bool-cases,
}
use large_project.Prelude.Param.{uint_mod}
use large_project.Strings.{Memory}
use large_project.Disk.{update, update_self, update_other}
use large_project.Ulib.Printf.{
  s_sputc, put_digits, put_text, Printer, put_char, put_number, put_string, put_conversion,
  put_step, print_loop, s_printf, snprintf, s_get_reverse_digits, reversed, null_text,
}

-- The address is not in the `len` bytes from `out` on.
abbrev pub Outside : ℕ → ℕ → ℕ → Type 0
Outside out len a = (a < out) ⊎ (out + len ≤ a)

s_sputc-Outside :
    (mem : Memory) (out len i c a : ℕ) → Outside out len a → s_sputc mem out len i c a ≡ mem a
unfolding s_sputc
s_sputc-Outside mem out len i c a h = ground arith

put_digits-Outside :
    (mem : Memory) (out len j : ℕ) (cs : List ℕ) (a : ℕ)
    → Outside out len a
    → put_digits mem out len j cs a ≡ mem a
unfolding put_digits
put_digits-Outside mem out len j [] a h = refl
put_digits-Outside mem out len j (c ∷ cs) a h = elim (Bool-cases (ltb j len)) [
  | inl y ↦ rw y (
      put_digits-Outside (s_sputc mem out len j c) out len (j + 1) cs a h
      ∙ s_sputc-Outside mem out len j c a h)
  | inr n ↦ rw n refl
]

put_text-Outside :
    (mem : Memory) (out len i : ℕ) (cs : List ℕ) (a : ℕ)
    → Outside out len a
    → put_text mem out len i cs a ≡ mem a
unfolding put_text
put_text-Outside mem out len i [] a h = refl
put_text-Outside mem out len i (c ∷ cs) a h =
    put_text-Outside (s_sputc mem out len i c) out len (i + 1) cs a h
    ∙ s_sputc-Outside mem out len i c a h

module _ (out len : ℕ) (args : ℕ → ℕ) (text : ℕ → List ℕ) (a : ℕ) (h : Outside out len a) where
  put_number-Outside :
      (p : Printer) (base : ℕ) (sgn : Bool)
      → p.index < len
      → (put_number out len args text p base sgn).mem a ≡ p.mem a
  unfolding put_number
  put_number-Outside p base sgn lt =
      put_digits-Outside p.mem (out + p.index) (len - p.index) 0
        (reversed (s_get_reverse_digits (args p.ap) base sgn) []) a
        (elim h [ inl l ↦ inl (omega arith) | inr g ↦ inr (omega arith) ])

  -- Both branches of a test
  either :
      (m : ℕ) (b : Bool) (p q : Printer)
      → p.mem a ≡ m
      → q.mem a ≡ m
      → (if b then p else q).mem a ≡ m
  either m true p q e f = e
  either m false p q e f = f

  put_char-Outside : (p : Printer) (c : ℕ) → (put_char out len args text p c).mem a ≡ p.mem a
  unfolding put_char
  put_char-Outside p c = s_sputc-Outside p.mem out len p.index c a h

  put_string-Outside : (p : Printer) → (put_string out len args text p).mem a ≡ p.mem a
  unfolding put_string
  put_string-Outside p =
      put_text-Outside p.mem out len p.index
        (if args p.ap == 0 then null_text else text (args p.ap)) a h

  put_conversion-Outside :
      (p : Printer) (c : ℕ) → p.index < len → (put_conversion out len args text p c).mem a ≡ p.mem a
  unfolding put_conversion
  put_conversion-Outside p c lt =
      either (p.mem a) (c == 100) _ _ (put_number-Outside p 10 true lt) (
        either (p.mem a) (c == 120 || c == 112) _ _ (put_number-Outside p 16 false lt) (
          either (p.mem a) (c == 115) _ _ (put_string-Outside p) (
            either (p.mem a) (c == 99) _ _ (put_char-Outside p (args p.ap % 256)) (
              either (p.mem a) (c == 37) _ _ (put_char-Outside p c)
                (put_char-Outside (put_char out len args text p 37) c ∙ put_char-Outside p 37)))))

  put_step-Outside :
      (p : Printer) (c : ℕ) → p.index < len → (put_step out len args text p c).mem a ≡ p.mem a
  unfolding put_step
  put_step-Outside p c lt =
      either (p.mem a) p.percent _ _ (put_conversion-Outside p c lt)
        (either (p.mem a) (c == 37) (record p { percent = true }) _ refl (put_char-Outside p c))

  print_loop-Outside :
      (p : Printer) (fmt : List ℕ) → (print_loop out len args text p fmt).mem a ≡ p.mem a
  unfolding print_loop
  print_loop-Outside p [] = refl
  print_loop-Outside p (c ∷ fmt) = elim (Bool-cases (ltb p.index len)) [
    | inl y ↦ rw y (
        print_loop-Outside (put_step out len args text p c) fmt
        ∙ put_step-Outside p c (ground (arith, y)))
    | inr n ↦ rw n refl
  ]

-- What snprintf() has done to memory: a string of `count` characters is in the `n` bytes at `out`.
abbrev pub Prints : Memory → ℕ → ℕ → Memory × ℕ → Type 0
Prints mem out n (mem', count) =
    (count < n) × (mem' (out + count) ≡ 0) × ((a : ℕ) → Outside out n a → mem' a ≡ mem a)

stored-Prints :
    (mem mem1 : Memory) (out n count : ℕ)
    → count < n
    → ((a : ℕ) → Outside out n a → mem1 a ≡ mem a)
    → Prints mem out n (if ltb count n then update mem1 (out + count) 0 else mem1, count)
stored-Prints mem mem1 out n count lt same =
    let inside : ltb count n ≡ true = ground arith in
    rw inside (
      lt,
      update_self mem1 (out + count) 0,
      λ a h. update_other mem1 (out + count) 0 a (λ e. absurd (apart a h e)) ∙ same a h,
    )
  where
    apart : (a : ℕ) → Outside out n a → out + count ≡ a → ⊥
    apart a h e = elim h [ inl l ↦ absurd (omega arith) | inr g ↦ absurd (omega arith) ]

clip : (n len i : ℕ) → len ≡ n - 1 → 0 < n → (if ltb len i then len else i) < n
clip n len i e pos = ground arith

-- snprintf() of at least one byte, whatever the format, the words on the stack and the strings that they
-- point to, changes no byte outside the `n` bytes of its buffer, returns less than `n`, and ends what
-- it has stored with a NUL at that place.
pub snprintf-Prints :
    (mem : Memory) (out n : ℕ) (fmt : List ℕ) (args : ℕ → ℕ) (text : ℕ → List ℕ)
    → 0 < n
    → n < 2 ^ 31
    → Prints mem out n (snprintf mem out n fmt args text)
unfolding snprintf s_printf
snprintf-Prints mem out n fmt args text pos lt =
    stored-Prints mem p.mem out n (if ltb len p.index then len else p.index)
      (clip n len p.index len_eq pos)
      (λ a h. print_loop-Outside out len args text a (narrow a h) begin fmt)
  where
    len : ℕ
    len = (n + uint_mod - 1) % uint_mod

    len_eq : len ≡ n - 1
    len_eq = omega arith

    begin : Printer
    begin = record { mem = mem; index = 0; ap = 0; percent = false }

    p : Printer
    p = print_loop out len args text begin fmt

    narrow : (a : ℕ) → Outside out n a → Outside out len a
    narrow a h = elim h [ inl l ↦ inl l | inr g ↦ inr (omega arith) ]
