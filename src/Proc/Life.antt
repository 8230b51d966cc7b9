-- ===== src/Proc/Life.antt =====
-- proc.c: the end of a process, exit() and wait().
use large_project.Prelude.{
  ℕ, zero, suc, ◌+◌, false, not, List, [], ◌∷◌, Option, none, some, ◌==◌, if◌then◌else◌, get_elem?,
  map,
}
use large_project.Prelude.Int.{ℤ, negsuc, int_of}
use large_project.Prelude.Outcome.{Outcome, ok, ◌>>=◌, ◌>>◌, panic_if}
use large_project.Proc.{Env, Ptable, modify, close_files}
use large_project.Proc.Table.{
  unused, zombie, state_eq, Chan, nil, proc_chan, Proc, is_child, wakeup1,
}

-- A process pointer as a wait channel.
abbrev pub chan_of : Option ℕ → Chan
chan_of none = nil
chan_of (some i) = proc_chan i

-- One turn of the loop of exit() that passes children to init, at slot `i`.
unfoldable pub reparent_at : ℕ → ℕ → ℕ → List Proc → List Proc
reparent_at cur initproc i ps = elim (get_elem? ps i) [
  | none ↦ ps
  | some p ↦
      if is_child cur p
      then (let ps' = modify ps i (λ q. record q { parent = some initproc }) in
          if state_eq p.state zombie then wakeup1 (proc_chan initproc) ps' else ps')
      else ps
]

-- The loop, over `n` slots from `i` on.
unfoldable pub reparent : ℕ → ℕ → ℕ → ℕ → List Proc → List Proc
unfolding reparent_at
reparent cur initproc zero i ps = ps
reparent cur initproc (suc n) i ps = reparent cur initproc n (i + 1) (reparent_at cur initproc i ps)

-- exit() under ptable.lock, up to its call of sched().
unfoldable pub exit_table : ℕ → ℕ → ℕ → Option ℕ → List Proc → List Proc
exit_table nproc cur initproc parent ps =
    modify (reparent cur initproc nproc 0 (wakeup1 (chan_of parent) ps)) cur
      (λ p. record p { state = zombie })

-- What one scan of wait() finds.
pub data Scan : Type 0 where
  no_child some_child : Scan
  reaped : ℕ → ℕ → ℕ → Scan

abbrev pub havekids : Scan → Scan
havekids no_child = some_child
havekids r = r

-- The slot of a zombie after wait() has freed it; kfree() and freevm() are in `wait`.
abbrev pub reap : Proc → Proc
reap p = record p { kstack = 0; pid = 0; parent = none; name = []; killed = false; state = unused }

-- The scan of wait(): the first zombie child is freed; `reaped` has its pid, its kernel stack and
-- its page table.
unfoldable pub scan : ℕ → List Proc → List Proc × Scan
scan cur [] = ([], no_child)
scan cur (p ∷ ps) =
    let rest = scan cur ps in
    if not (is_child cur p)
    then (p ∷ rest.0, rest.1)
    else if state_eq p.state zombie
    then (reap p ∷ ps, reaped p.pid p.kstack p.pgdir)
    else (p ∷ rest.0, havekids rest.1)

-- What one turn of the loop of wait() does: it returns, or it sleeps on its own address.
pub data Waits : Type 0 where
  returns : ℤ → Waits
  sleeps : Chan → Waits

module _ (env : Env) where
  open env use {State, kfree, freevm, begin_op, iput, end_op}

  -- exit() by the process in slot `cur`, up to its call of sched().
  unfoldable pub exit : ℕ → ℕ → Proc → Ptable → State → Outcome (Ptable × State)
  exit nproc cur curproc t s = do
    panic_if (cur == t.initproc) "init exiting"
    s1 ← close_files env curproc.ofile s
    s2 ← iput curproc.cwd (begin_op s1)
    s3 ← end_op s2
    ok (
      record t {
        table =
            exit_table nproc cur t.initproc curproc.parent
              (modify t.table cur (λ p. record p { ofile = map (λ f. 0) p.ofile; cwd = 0 }));
      },
      s3,
    )

  -- What wait() does with the result of its scan.
  unfoldable pub wait_after :
      ℕ → Proc → List Proc → Ptable → State → Scan → Outcome (Waits × Ptable × State)
  wait_after cur curproc ps t s (reaped pid kstack pgdir) = do
    s1 ← kfree kstack s
    s2 ← freevm pgdir s1
    ok (returns (int_of pid), record t { table = ps }, s2)
  wait_after cur curproc ps t s no_child = ok (returns (negsuc 0), t, s)
  wait_after cur curproc ps t s some_child =
      if curproc.killed then ok (returns (negsuc 0), t, s) else ok (sleeps (proc_chan cur), t, s)

  -- One turn of the loop of wait() by the process in slot `cur`.
  unfoldable pub wait : ℕ → Proc → Ptable → State → Outcome (Waits × Ptable × State)
  wait cur curproc t s = let (ps, r) = scan cur t.table in wait_after cur curproc ps t s r
