-- ===== src/Strings.antt =====
-- string.c over a memory of bytes: a pointer is an address, and each store is one update.
pub mod Move
pub mod Copy
mod Tests
use large_project.Prelude.{
  ℕ, zero, suc, ◌+◌, ◌-◌, ◌%◌, Bool, true, false, not, ◌&&◌, ltb, ◌==◌, if◌then◌else◌,
}
use large_project.Prelude.Int.{ℤ, pos, sub_ℕ}
use large_project.Disk.{update}

abbrev pub Memory : Type 0
Memory = ℕ → ℕ

-- memset(): stosl() and stosb() both store the low byte of `c` into `n` bytes.
unfoldable pub memset : Memory → ℕ → ℕ → ℕ → Memory
memset mem dst c zero = mem
memset mem dst c (suc n) = memset (update mem dst (c % 256)) (dst + 1) c n

-- The loop of memmove() that runs upwards, over `n` bytes.
unfoldable pub move_up : Memory → ℕ → ℕ → ℕ → Memory
move_up mem d s zero = mem
move_up mem d s (suc n) = move_up (update mem d (mem s)) (d + 1) (s + 1) n

-- The loop that runs downwards: `*--d = *--s` with `n` bytes to go.
unfoldable pub move_down : Memory → ℕ → ℕ → ℕ → Memory
move_down mem d s zero = mem
move_down mem d s (suc n) = move_down (update mem (d + n) (mem (s + n))) d s n

unfoldable pub memmove : Memory → ℕ → ℕ → ℕ → Memory
memmove mem dst src n =
    if ltb src dst && ltb dst (src + n) then move_down mem dst src n else move_up mem dst src n

-- memcpy()
unfoldable pub memcpy : Memory → ℕ → ℕ → ℕ → Memory
unfolding memmove
memcpy mem dst src n = memmove mem dst src n

unfoldable pub memcmp : Memory → ℕ → ℕ → ℕ → ℤ
memcmp mem s1 s2 zero = pos 0
memcmp mem s1 s2 (suc n) =
    let rest = memcmp mem (s1 + 1) (s2 + 1) n in
    if not (mem s1 == mem s2) then sub_ℕ (mem s1) (mem s2) else rest

unfoldable pub strncmp : Memory → ℕ → ℕ → ℕ → ℤ
strncmp mem p q zero = pos 0
strncmp mem p q (suc n) =
    let rest = strncmp mem (p + 1) (q + 1) n in
    if not (mem p == 0) && mem p == mem q then rest else sub_ℕ (mem p) (mem q)

-- The second loop of strncpy().
unfoldable pub pad : Memory → ℕ → ℕ → Memory
pad mem s zero = mem
pad mem s (suc n) = pad (update mem s 0) (s + 1) n

-- strncpy() for a positive `n`: the first loop, and the second once a NUL is copied.
unfoldable pub strncpy : Memory → ℕ → ℕ → ℕ → Memory
unfolding pad
strncpy mem s t zero = mem
strncpy mem s t (suc n) =
    let rest = strncpy (update mem s (mem t)) (s + 1) (t + 1) n in
    if mem t == 0 then pad (update mem s (mem t)) (s + 1) n else rest

-- The loop of safestrcpy() with `n` bytes after `--n`, and the store behind it.
unfoldable pub safe_copy : Memory → ℕ → ℕ → ℕ → Memory
safe_copy mem s t zero = update mem s 0
safe_copy mem s t (suc n) =
    let rest = safe_copy (update mem s (mem t)) (s + 1) (t + 1) n in
    if mem t == 0 then update (update mem s (mem t)) (s + 1) 0 else rest

unfoldable pub safestrcpy : Memory → ℕ → ℕ → ℕ → Memory
unfolding safe_copy
safestrcpy mem s t zero = mem
safestrcpy mem s t (suc n) = safe_copy mem s t n

-- The loop of strlen() from `n` on, with fuel.
unfoldable pub strlen_from : ℕ → Memory → ℕ → ℕ → ℕ
strlen_from zero mem s n = n
strlen_from (suc f) mem s n =
    let rest = strlen_from f mem s (n + 1) in if mem (s + n) == 0 then n else rest
