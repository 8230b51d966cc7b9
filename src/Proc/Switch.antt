-- ===== src/Proc/Switch.antt =====
-- proc.c: giving up the CPU, and the scheduler's choice. The switch of stacks itself (swtch.S) is
-- left out: a switch ends the step of the process that makes it.
use large_project.Prelude.{
  ℕ, zero, suc, ◌+◌, Bool, false, not, ◌||◌, List, [], ◌∷◌, ◌++◌, Option, none, some, ◌==◌,
  if◌then◌else◌, get_elem?,
}
use large_project.Prelude.Int.{ℤ, pos, ltb_ℤ}
use large_project.Prelude.Outcome.{Outcome, ok, ◌>>=◌, ◌>>◌, panic_if}
use large_project.Spinlock.{Cpu, Spinlock, holding}
use large_project.Proc.{modify}
use large_project.Proc.Table.{runnable, running, sleeping, state_eq, Chan, nil, Proc}

abbrev is_one : ℤ → Bool
is_one (pos n) = n == 1
is_one _ = false

-- sched() by process `p` on CPU `me` up to the switch: the process with its tick counted, and the
-- CPU. After the switch back `intena` is what it was.
unfoldable pub sched : ℕ → Spinlock → Cpu → Proc → Outcome (Proc × Cpu)
sched me lk c p = do
  (held, c') ← holding me lk c
  panic_if (not held) "sched ptable.lock"
  panic_if (not (is_one c'.ncli)) "sched locks"
  panic_if (state_eq p.state running) "sched running"
  panic_if c'.interrupts "sched interruptible"
  ok (record p { ticks_scheduled = p.ticks_scheduled + 1 }, c')

-- yield(), with ptable.lock held, up to the switch.
unfoldable pub yield : ℕ → Spinlock → Cpu → Proc → Outcome (Proc × Cpu)
yield me lk c p = sched me lk c (record p { state = runnable })

-- sleep() on `chan` up to the switch, once ptable.lock is held and `lk` released.
unfoldable pub sleep : Chan → ℕ → Spinlock → Cpu → Proc → Outcome (Proc × Cpu)
sleep c me lk cpu p = sched me lk cpu (record p { chan = c; state = sleeping })

-- The rest of sleep(), when the process runs again.
unfoldable pub sleep_wakes : Proc → Proc
sleep_wakes p = record p { chan = nil }

-- scheduler() passes over a slot if its process is not RUNNABLE or if p->priority > lowestPriority.
unfoldable pub skips : ℤ → Proc → Bool
skips lowest p = not (state_eq p.state runnable) || ltb_ℤ lowest p.priority

-- One turn of its inner loop at slot `i`: the table, `lowestPriority`, and the priority of the process
-- if it was chosen to run.
unfoldable pub visit : ℕ → List Proc → ℤ → List Proc × ℤ × Option ℤ
unfolding skips
visit i ps lowest = elim (get_elem? ps i) [
  | none ↦ (ps, lowest, none)
  | some p ↦
      if skips lowest p
      then (ps, lowest, none)
      else (modify ps i (λ q. record q { state = running }), p.priority, some p.priority)
]

-- The table at the end of a turn: where a process was chosen, after the switch back.
abbrev pub after_turn : (ℕ → List Proc → List Proc) → ℕ → List Proc → Option ℤ → List Proc
after_turn others i ps none = ps
after_turn others i ps (some q) = others i ps

-- The slot of a chosen process, with its priority.
abbrev pub note : ℕ → Option ℤ → List (ℕ × ℤ) → List (ℕ × ℤ)
note i none r = r
note i (some q) r = (i, q) ∷ r

-- The inner loop of scheduler() from slot `i` on, `n` slots. `others` is what the chosen process
-- and the other CPUs make of the table before the switch back. The list is the slots that were
-- chosen, with the priorities that they had.
unfoldable pub pass :
    (ℕ → List Proc → List Proc) → ℕ → ℕ → List Proc → ℤ → List Proc × ℤ × List (ℕ × ℤ)
unfolding visit
pass others zero i ps lowest = (ps, lowest, [])
pass others (suc n) i ps lowest =
    let (ps', lowest', chosen) = visit i ps lowest in
    let rest = pass others n (i + 1) (after_turn others i ps' chosen) lowest' in
    (rest.0, rest.1, note i chosen rest.2)

-- The outer loop, `rounds` times; `lowestPriority` is set once, before it, and kept. Between two
-- rounds the lock is free, and `between` is what the others do to the table.
unfoldable pub scheduler_loop :
    (ℕ → List Proc → List Proc) → (List Proc → List Proc) → ℕ → ℕ → List Proc → ℤ → List (ℕ × ℤ)
scheduler_loop others between nproc zero ps lowest = []
scheduler_loop others between nproc (suc rounds) ps lowest =
    let r = pass others nproc 0 ps lowest in
    r.2 ++ scheduler_loop others between nproc rounds (between r.0) r.1

-- scheduler() starts with this `lowestPriority`.
abbrev pub first_lowest : ℤ
first_lowest = pos 0x77777777
