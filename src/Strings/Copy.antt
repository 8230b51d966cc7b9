-- ===== src/Strings/Copy.antt =====
-- strncpy(), safestrcpy() and strncmp() in terms of the C strings that they read.
use large_project.Prelude.{
  ℕ, zero, suc, ◌+◌, ◌-◌, ◌≤◌, ◌<◌, ◌≡◌, refl, ◌∙◌, ◌≢◌, ◌⊎◌, false, ltb, ◌==◌, if◌then◌else◌,
  arith, ap,
}
use large_project.Disk.{update}
use large_project.Strings.{Memory, pad, strncpy, safe_copy, safestrcpy}
use large_project.Strings.Move.{in_range}

-- Byte `i` of the C string at `t`, which counts as NUL from its first NUL on.
unfoldable pub c_byte : Memory → ℕ → ℕ → ℕ
c_byte mem t zero = mem t
c_byte mem t (suc i) = let rest = c_byte mem (t + 1) i in if mem t == 0 then 0 else rest

-- The `n` bytes from `s` on and those from `t` on do not overlap.
abbrev pub Apart : ℕ → ℕ → ℕ → Type 0
Apart s t n = (t + n ≤ s) ⊎ (s + n ≤ t)

c_byte-update :
    (mem : Memory) (s v t i : ℕ)
    → (s < t) ⊎ (t + i < s)
    → c_byte (update mem s v) t i ≡ c_byte mem t i
unfolding c_byte
c_byte-update mem s v t zero h = ground arith
c_byte-update mem s v t (suc i) h =
    let ih = c_byte-update mem s v (t + 1) i (omega arith) in ground arith

pad_lem : (mem : Memory) (s n a : ℕ) → pad mem s n a ≡ (if in_range s n a then 0 else mem a)
unfolding pad
pad_lem mem s zero a = ground arith
pad_lem mem s (suc n) a = let ih = pad_lem (update mem s 0) (s + 1) n a in ground arith

c_byte-suc :
    (mem : Memory) (t k : ℕ)
    → c_byte mem t (suc k) ≡ (if mem t == 0 then 0 else c_byte mem (t + 1) k)
unfolding c_byte
c_byte-suc mem t k = refl

c_byte-sub :
    (mem : Memory) (t s a : ℕ)
    → s < a
    → c_byte mem t (a - s) ≡ (if mem t == 0 then 0 else c_byte mem (t + 1) (a - (s + 1)))
c_byte-sub mem t s a h = ap (c_byte mem t) (omega arith) ∙ c_byte-suc mem t (a - (s + 1))

c_byte-zero : (mem : Memory) (t k : ℕ) → k ≡ 0 → c_byte mem t k ≡ mem t
unfolding c_byte
c_byte-zero mem t zero h = refl
c_byte-zero mem t (suc k) h = omega arith

-- After strncpy(s, t, n) of ranges that do not overlap, byte `i` of the `n` bytes from `s` on is byte
-- `i` of the C string at `t`, padded with NULs, and all other memory is unchanged.
pub strncpy_lem :
    (mem : Memory) (s t n a : ℕ)
    → Apart s t n
    → strncpy mem s t n a ≡ (if in_range s n a then c_byte mem t (a - s) else mem a)
unfolding strncpy
strncpy_lem mem s t zero a h = ground arith
strncpy_lem mem s t (suc n) a h =
    let start = c_byte-zero mem t (a - s) in
    let sub = c_byte-sub mem t s a in
    let padded = pad_lem (update mem s (mem t)) (s + 1) n a in
    let ih = strncpy_lem (update mem s (mem t)) (s + 1) (t + 1) n a (omega arith) in
    let same = c_byte-update mem s (mem t) (t + 1) (a - (s + 1)) in ground arith

safe_copy-outside :
    (mem : Memory) (s t n a : ℕ) → in_range s (suc n) a ≡ false → safe_copy mem s t n a ≡ mem a
unfolding safe_copy
safe_copy-outside mem s t zero a h = ground arith
safe_copy-outside mem s t (suc n) a h =
    let ih = safe_copy-outside (update mem s (mem t)) (s + 1) (t + 1) n a in ground arith

safe_copy-start : (mem : Memory) (s t n : ℕ) → safe_copy mem s t (suc n) s ≡ mem t
unfolding safe_copy
safe_copy-start mem s t n =
    let out = safe_copy-outside (update mem s (mem t)) (s + 1) (t + 1) n s in ground arith

safe_copy-nul :
    (mem : Memory) (s t n : ℕ)
    → mem t ≢ 0
    → safe_copy mem s t (suc n) ≡ safe_copy (update mem s (mem t)) (s + 1) (t + 1) n
unfolding safe_copy
safe_copy-nul mem s t n h = ground arith

safe_copy-none : (mem : Memory) (s t : ℕ) → safe_copy mem s t 0 s ≡ 0
unfolding safe_copy
safe_copy-none mem s t = ground arith

c_byte-nul : (mem : Memory) (s i : ℕ) → mem s ≡ 0 → c_byte mem s i ≡ 0
unfolding c_byte
c_byte-nul mem s zero h = h
c_byte-nul mem s (suc i) h = ground arith

safe_copy_lem :
    (mem : Memory) (s t n i : ℕ)
    → (t + n ≤ s) ⊎ (s + n < t)
    → c_byte (safe_copy mem s t n) s i ≡ (if ltb i n then c_byte mem t i else 0)
unfolding c_byte
safe_copy_lem mem s t zero i h =
    let out = c_byte-nul (safe_copy mem s t 0) s i (safe_copy-none mem s t) in ground arith
safe_copy_lem mem s t (suc n) zero h = let first = safe_copy-start mem s t n in ground arith
safe_copy_lem mem s t (suc n) (suc i) h =
    let ih = safe_copy_lem (update mem s (mem t)) (s + 1) (t + 1) n i (omega arith) in
    let first = safe_copy-start mem s t n in
    let rest = safe_copy-nul mem s t n in
    let same = c_byte-update mem s (mem t) (t + 1) i in ground arith

-- After safestrcpy(s, t, n) with n = m + 1, of ranges that do not overlap, the C string at `s` consists
-- of the first m bytes of the C string at `t`, so it ends within the n bytes, and no byte outside the n
-- bytes from `s` on is changed.
pub safestrcpy_lem :
    (mem : Memory) (s t m : ℕ)
    → Apart s t (suc m)
    → ((i : ℕ) → c_byte (safestrcpy mem s t (suc m)) s i ≡ (if ltb i m then c_byte mem t i else 0))
      × ((a : ℕ) → in_range s (suc m) a ≡ false → safestrcpy mem s t (suc m) a ≡ mem a)
unfolding safestrcpy
safestrcpy_lem mem s t m h =
    ((λ i. safe_copy_lem mem s t m i (omega arith)), λ a out. safe_copy-outside mem s t m a out)
