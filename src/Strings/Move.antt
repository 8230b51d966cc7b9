-- ===== src/Strings/Move.antt =====
-- memmove() copies also between ranges that overlap.
use large_project.Prelude.{
  ℕ, zero, suc, ◌+◌, ◌-◌, ◌≤◌, ◌<◌, ◌≡◌, ◌∙◌, ◌⊎◌, inl, inr, Bool, false, ◌&&◌, ltb, leb,
  if◌then◌else◌, arith, Bool-cases,
}
use large_project.Disk.{update}
use large_project.Strings.{Memory, move_up, move_down, memmove}

-- Is address `a` one of the `n` bytes from `d` on?
abbrev pub in_range : ℕ → ℕ → ℕ → Bool
in_range d n a = leb d a && ltb a (d + n)

move_up_lem :
    (mem : Memory) (d s n a : ℕ)
    → (d ≤ s) ⊎ (s + n ≤ d)
    → move_up mem d s n a ≡ (if in_range d n a then mem (s + (a - d)) else mem a)
unfolding move_up
move_up_lem mem d s zero a h = ground arith
move_up_lem mem d s (suc n) a h =
    move_up_lem (update mem d (mem s)) (d + 1) (s + 1) n a (omega arith) ∙ step
  where
    step :
        (if in_range (d + 1) n a
          then update mem d (mem s) (s + 1 + (a - (d + 1)))
          else update mem d (mem s) a)
        ≡ (if in_range d (suc n) a then mem (s + (a - d)) else mem a)
    step = ground arith

move_down_lem :
    (mem : Memory) (d s n a : ℕ)
    → s < d
    → move_down mem d s n a ≡ (if in_range d n a then mem (s + (a - d)) else mem a)
unfolding move_down
move_down_lem mem d s zero a h = ground arith
move_down_lem mem d s (suc n) a h =
    move_down_lem (update mem (d + n) (mem (s + n))) d s n a h ∙ step
  where
    step :
        (if in_range d n a
          then update mem (d + n) (mem (s + n)) (s + (a - d))
          else update mem (d + n) (mem (s + n)) a)
        ≡ (if in_range d (suc n) a then mem (s + (a - d)) else mem a)
    step = ground arith

-- After memmove(dst, src, n) each of the `n` bytes from `dst` on is the byte that stood at its place
-- from `src` on before the call, also where the ranges overlap, and all other memory is unchanged.
pub memmove_lem :
    (mem : Memory) (dst src n a : ℕ)
    → memmove mem dst src n a ≡ (if in_range dst n a then mem (src + (a - dst)) else mem a)
unfolding memmove
memmove_lem mem dst src n a = elim (Bool-cases (ltb src dst && ltb dst (src + n))) [
  | inl o ↦ rw o (move_down_lem mem dst src n a (ground arith))
  | inr o ↦ rw o (move_up_lem mem dst src n a (apart o))
]
  where
    apart : (ltb src dst && ltb dst (src + n)) ≡ false → (dst ≤ src) ⊎ (src + n ≤ dst)
    apart o = ground arith
