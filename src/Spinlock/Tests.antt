-- ===== src/Spinlock/Tests.antt =====
-- Two CPUs and one lock.
use large_project.Prelude.{ℕ, ◌<◌, ◌≡◌, ◌≢◌, refl, true, false, none, some, arith}
use large_project.Prelude.Int.{pos, ◌+ℤ◌, ◌-ℤ◌}
use large_project.Prelude.Outcome.{ok, panic}
use large_project.Disk.{update}
use large_project.Spinlock.{Cpu, initlock, acquire, pushcli, popcli, holding}
use large_project.Spinlock.Nesting.{push_many, pop_many, pop_many-push_many}
use large_project.Spinlock.Mutex.{System, Reach, here, next, acquires, start, mutual_exclusion}

abbrev idle : Cpu
idle = record { ncli = pos 0; intena = false; interrupts = true }

-- A CPU that holds one lock, taken with interrupts on.
abbrev holder : Cpu
holder = record { ncli = pos 1; intena = true; interrupts = false }

pop_many-push_many_example :
    (0 < 3 → (push_many 3 idle).interrupts ≡ false)
    × (c' : Cpu) × (pop_many 3 (push_many 3 idle) ≡ ok c')
    × (c'.ncli ≡ pos 0)
    × (c'.interrupts ≡ true)
pop_many-push_many_example =
    pop_many-push_many 3 0 idle (record { depth = refl; masked = λ h. absurd (omega arith) })

-- CPU 1 has taken the lock.
abbrev taken : System
taken = record {
  lock = record { locked = true; cpu = some 1 };
  cpus = update start.cpus 1 holder;
  inside = update start.inside 1 true;
}

taken-Reach : Reach start taken
unfolding acquire pushcli popcli holding initlock ◌+ℤ◌ ◌-ℤ◌
taken-Reach = next here (acquires 1 holder refl refl refl refl)

mutual_exclusion_example :
    ((j : ℕ) → taken.inside j ≡ true → 1 ≡ j)
    × ((taken.cpus 1).interrupts ≡ false)
    × ((j : ℕ) → 1 ≢ j → acquire j taken.lock (taken.cpus j) ≡ ok none)
    × (acquire 1 taken.lock (taken.cpus 1) ≡ panic "acquire")
mutual_exclusion_example = mutual_exclusion taken 1 taken-Reach refl
