-- ===== src/Spinlock.antt =====
-- spinlock.c: spin locks and the nesting of interrupt disabling on one CPU. The name and the saved
-- call stack of a lock, which only serve debugging, are left out, and so are the memory barriers:
-- the model is sequentially consistent.
pub mod Nesting
pub mod Mutex
mod Tests
use large_project.Prelude.{
  ℕ, ◌+◌, ◌-◌, Bool, true, false, not, ◌&&◌, Option, none, some, ◌==◌, if◌then◌else◌,
}
use large_project.Prelude.Int.{ℤ, pos, ◌+ℤ◌, ◌-ℤ◌, ltb_ℤ}
use large_project.Prelude.Outcome.{Outcome, ok, panic, ◌>>=◌, ◌>>◌, panic_if}

-- The fields of `struct cpu` that locks use, and the interrupt flag of %eflags.
pub record Cpu : Type 0 where
  pub ncli : ℤ
  pub intena : Bool
  pub interrupts : Bool

-- `cpu` is the index of the holder in `cpus`.
pub record Spinlock : Type 0 where
  pub locked : Bool
  pub cpu : Option ℕ

abbrev pub is_pos_zero : ℤ → Bool
is_pos_zero (pos n) = n == 0
is_pos_zero _ = false

abbrev pub is_cpu : ℕ → Option ℕ → Bool
is_cpu me none = false
is_cpu me (some i) = i == me

unfoldable pub initlock : Spinlock
initlock = record { locked = false; cpu = none }

unfoldable pub pushcli : Cpu → Cpu
unfolding ◌+ℤ◌
pushcli c = record {
  ncli = c.ncli +ℤ pos 1;
  intena = if is_pos_zero c.ncli then c.interrupts else c.intena;
  interrupts = false;
}

unfoldable pub popcli : Cpu → Outcome Cpu
unfolding ◌-ℤ◌
popcli c =
    let ncli' = c.ncli -ℤ pos 1 in
    if c.interrupts
    then panic "popcli - interruptible"
    else if ltb_ℤ ncli' (pos 0)
    then panic "popcli"
    else ok (record { ncli = ncli'; intena = c.intena; interrupts = is_pos_zero ncli' && c.intena })

-- holding(), on CPU `me`
unfoldable pub holding : ℕ → Spinlock → Cpu → Outcome (Bool × Cpu)
holding me lk c = do c' ← popcli (pushcli c); ok (lk.locked && is_cpu me lk.cpu, c')

-- acquire() up to and with one xchg: `none` if the lock was taken and the loop goes on.
unfoldable pub acquire : ℕ → Spinlock → Cpu → Outcome (Option (Spinlock × Cpu))
acquire me lk c = do
  (held, c') ← holding me lk (pushcli c)
  panic_if held "acquire"
  ok (if lk.locked then none else some (record { locked = true; cpu = some me }, c'))

unfoldable pub release : ℕ → Spinlock → Cpu → Outcome (Spinlock × Cpu)
release me lk c = do
  (held, c') ← holding me lk c
  panic_if (not held) "release"
  c'' ← popcli c'
  ok (record { locked = false; cpu = none }, c'')
