-- ===== src/Ulib.antt =====
-- ulib.c: the string functions of user programs that are not system calls, over a memory of bytes. The
-- fuel of a loop bounds the characters that it looks at.
pub mod Printf
pub mod Bounded
mod Tests
use large_project.Prelude.{ℕ, zero, suc, ◌+◌, ◌-◌, ◌*◌, not, ◌&&◌, leb, ◌==◌, if◌then◌else◌}
use large_project.Prelude.Int.{ℤ, sub_ℕ}
use large_project.Disk.{update}
use large_project.Strings.{Memory, move_up}

-- strcpy(): the loop over the characters up to the NUL.
unfoldable pub strcpy : ℕ → Memory → ℕ → ℕ → Memory
strcpy zero mem s t = mem
strcpy (suc k) mem s t =
    let mem' = update mem s (mem t) in
    let rest = strcpy k mem' (s + 1) (t + 1) in if mem t == 0 then mem' else rest

unfoldable pub strcmp : ℕ → Memory → ℕ → ℕ → ℤ
strcmp zero mem p q = sub_ℕ (mem p) (mem q)
strcmp (suc k) mem p q =
    let rest = strcmp k mem (p + 1) (q + 1) in
    if not (mem p == 0) && mem p == mem q then rest else sub_ℕ (mem p) (mem q)

-- strchr(): the address of the character, 0 if there is none.
unfoldable pub strchr : ℕ → Memory → ℕ → ℕ → ℕ
strchr zero mem s c = 0
strchr (suc k) mem s c =
    let rest = strchr k mem (s + 1) c in if mem s == 0 then 0 else if mem s == c then s else rest

-- The loop of atoi() with `n` read so far; overflow of `int` is undefined in C and left out.
unfoldable pub atoi_from : ℕ → Memory → ℕ → ℕ → ℕ
atoi_from zero mem s n = n
atoi_from (suc k) mem s n =
    let rest = atoi_from k mem (s + 1) (n * 10 + (mem s - 48)) in
    if leb 48 (mem s) && leb (mem s) 57 then rest else n

unfoldable pub atoi : ℕ → Memory → ℕ → ℕ
unfolding atoi_from
atoi k mem s = atoi_from k mem s 0

-- memmove() of ulib.c always copies upwards.
unfoldable pub user_memmove : Memory → ℕ → ℕ → ℕ → Memory
unfolding move_up
user_memmove mem vdst vsrc n = move_up mem vdst vsrc n
