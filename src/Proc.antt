-- ===== src/Proc.antt =====
-- proc.c and proc.h: the process table. What `ptable.lock` encloses is one step; a pointer to a
-- process is its index in `ptable.proc`. The trap frame is reduced to the registers that the kernel
-- reads or writes by name; the kernel stack's contents (`context`, `tf` as addresses) are left out.
pub mod Table
pub mod Life
pub mod Switch
pub mod Pids
pub mod Starve
pub mod Reap
pub mod Exit
pub mod Zombie
pub mod Wait
pub mod Fork
pub mod Calm
pub mod Returns
pub mod Kill
mod Tests
use large_project.Prelude.{
  ℕ, zero, suc, ◌+◌, ◌-◌, ◌%◌, Bool, true, false, not, ◌&&◌, ◌||◌, List, [], ◌∷◌, Option, none,
  some, ◌==◌, if◌then◌else◌, get_elem?, set, length,
}
use large_project.Prelude.Int.{ℤ, pos, negsuc, ltb_ℤ, int_of}
use large_project.Prelude.Param.{uint_mod}
use large_project.Prelude.Outcome.{Outcome, ok, panic, ◌>>=◌, ◌>>◌, panic_if}
use Table.{
  Procstate, unused, embryo, sleeping, runnable, running, zombie, state_eq, Chan, nil, proc_chan,
  chan_eq, Trapframe, Proc, is_child, wakeup1,
}

-- What proc.c calls in the rest of the kernel, over that rest's state: kalloc.c, vm.c, file.c, fs.c
-- and log.c. A null pointer is 0.
pub record Env : Type 1 where
  pub State : Type 0
  pub kalloc : State → ℕ × State
  pub kfree : ℕ → State → Outcome State
  pub copyuvm : ℕ → ℕ → State → Outcome (ℕ × State)
  pub freevm : ℕ → State → Outcome State
  pub filedup : ℕ → State → Outcome State
  pub fileclose : ℕ → State → Outcome State
  pub idup : ℕ → State → State
  pub begin_op : State → State
  pub iput : ℕ → State → Outcome State
  pub end_op : State → Outcome State

-- The file's variables. `nextpid` is an int, as its 32 bits, and so is the pid of a process.
pub record Ptable : Type 0 where
  pub table : List Proc
  pub initproc : ℕ
  pub nextpid : ℕ
  pub ticks : ℕ

-- The loop of allocproc() up to `found`: every slot that it visits loses its priority.
unfoldable pub find_unused : List Proc → ℕ → ℕ → List Proc × Option ℕ
find_unused [] pid i = ([], none)
find_unused (p ∷ ps) pid i =
    let p' = record p { priority = pos 0 } in
    let rest = find_unused ps pid (i + 1) in
    if state_eq p'.state unused
    then (record p' { state = embryo; pid = pid } ∷ ps, some i)
    else (p' ∷ rest.0, rest.1)

-- An assignment through a pointer to slot `i`.
abbrev pub modify : List Proc → ℕ → (Proc → Proc) → List Proc
modify [] i f = []
modify (p ∷ ps) zero f = f p ∷ ps
modify (p ∷ ps) (suc i) f = p ∷ modify ps i f

-- An open file overwrites the child's entry; a closed one leaves it.
unfoldable pub copy_ofile : List ℕ → List ℕ → List ℕ
copy_ofile [] old = old
copy_ofile (f ∷ fs) [] = []
copy_ofile (f ∷ fs) (o ∷ os) = (if f == 0 then o else f) ∷ copy_ofile fs os

-- The child's slot after a copyuvm() that failed.
abbrev pub undo_child : ℕ → Proc → Proc
undo_child pgdir p = record p { pgdir = pgdir; kstack = 0; state = unused }

-- The child's slot at the end of a fork() by process `c` in slot `cur`.
abbrev pub become_child : ℕ → Proc → ℕ → ℕ → Proc → Proc
become_child cur c ticks pgdir p = record p {
  pgdir = pgdir;
  sz = c.sz;
  parent = some cur;
  tf = record c.tf { eax = 0 };
  ofile = copy_ofile c.ofile p.ofile;
  cwd = c.cwd;
  name = c.name;
  state = runnable;
  ticks_at_start = ticks;
  ticks_scheduled = 0;
}

module _ (env : Env) where
  open env use {
    State, kalloc, kfree, copyuvm, freevm, filedup, fileclose, idup, begin_op, iput, end_op,
  }

  -- allocproc() with slot `i` found and the result of kalloc() in hand.
  unfoldable pub give_kstack : Ptable → List Proc → ℕ → ℕ × State → Option ℕ × Ptable × State
  give_kstack t ps i (kstack, s) =
      if kstack == 0
      then (
        none,
        record t {
          table = modify ps i (λ p. record p { kstack = kstack; state = unused });
          nextpid = (t.nextpid + 1) % uint_mod;
        },
        s,
      )
      else (
        some i,
        record t {
          table = modify ps i (λ p. record p { kstack = kstack });
          nextpid = (t.nextpid + 1) % uint_mod;
        },
        s,
      )

  -- allocproc(): the new slot, `none` for a null pointer.
  unfoldable pub allocproc : Ptable → State → Option ℕ × Ptable × State
  allocproc t s =
      let (ps, slot) = find_unused t.table t.nextpid 0 in
      elim slot [
        | none ↦ (none, record t { table = ps }, s)
        | some i ↦ give_kstack t ps i (kalloc s)
      ]

  -- The loop over `curproc->ofile` in fork(), with filedup() of each open file.
  unfoldable pub dup_files : List ℕ → State → Outcome State
  dup_files [] s = ok s
  dup_files (f ∷ fs) s = (if f == 0 then ok s else filedup f s) >>= λ s'. dup_files fs s'

  -- fork() once it has a slot: `np` is what allocproc() left in slot `i`.
  unfoldable pub fork_slot : ℕ → Proc → ℕ → Proc → Ptable → State → Outcome (ℤ × Ptable × State)
  fork_slot cur curproc i np t s = do
    (pgdir, s2) ← copyuvm curproc.pgdir curproc.sz s
    if pgdir == 0
        then (do
          s3 ← kfree np.kstack s2
          ok (negsuc 0, record t { table = modify t.table i (undo_child pgdir) }, s3))
        else (do
          s3 ← dup_files curproc.ofile s2
          ok (
            int_of np.pid,
            record t { table = modify t.table i (become_child cur curproc t.ticks pgdir) },
            idup curproc.cwd s3,
          ))

  -- fork() with the result of allocproc() in hand. The slot that allocproc() names is there.
  unfoldable pub fork_with : ℕ → Proc → Option ℕ × Ptable × State → Outcome (ℤ × Ptable × State)
  fork_with cur curproc (none, t, s) = ok (negsuc 0, t, s)
  fork_with cur curproc (some i, t, s) = elim (get_elem? t.table i) [
    | none ↦ panic "no such slot"
    | some np ↦ fork_slot cur curproc i np t s
  ]

  -- fork() by the process in slot `cur`, which is `curproc`. The result is the child's pid or -1.
  unfoldable pub fork : ℕ → Proc → Ptable → State → Outcome (ℤ × Ptable × State)
  fork cur curproc t s = fork_with cur curproc (allocproc t s)

  -- The loop over open files in exit().
  unfoldable pub close_files : List ℕ → State → Outcome State
  close_files [] s = ok s
  close_files (f ∷ fs) s = (if f == 0 then ok s else fileclose f s) >>= λ s'. close_files fs s'
