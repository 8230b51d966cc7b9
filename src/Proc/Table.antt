-- ===== src/Proc/Table.antt =====
-- struct proc, and the operations of proc.c that are one pass over `ptable.proc`.
use large_project.Prelude.{
  ℕ, Bool, true, false, ◌&&◌, List, [], ◌∷◌, Option, none, some, ◌==◌, if◌then◌else◌,
}
use large_project.Prelude.Int.{ℤ}

-- enum procstate
pub data Procstate : Type 0 where
  unused embryo sleeping runnable running zombie : Procstate

abbrev pub state_eq : Procstate → Procstate → Bool
state_eq unused unused = true
state_eq embryo embryo = true
state_eq sleeping sleeping = true
state_eq runnable runnable = true
state_eq running running = true
state_eq zombie zombie = true
state_eq _ _ = false

-- A wait channel: null, the address of a process, or that of something else.
pub data Chan : Type 0 where
  nil : Chan
  proc_chan : ℕ → Chan
  address : ℕ → Chan

abbrev pub chan_eq : Chan → Chan → Bool
chan_eq nil nil = true
chan_eq (proc_chan i) (proc_chan j) = i == j
chan_eq (address a) (address b) = a == b
chan_eq _ _ = false

-- The registers of `struct trapframe` that system calls use.
pub record Trapframe : Type 0 where
  pub eax : ℕ
  pub esp : ℕ
  pub eip : ℕ

pub record Proc : Type 0 where
  pub sz : ℕ
  pub pgdir : ℕ
  pub kstack : ℕ
  pub state : Procstate
  pub pid : ℕ
  pub parent : Option ℕ
  pub tf : Trapframe
  pub chan : Chan
  pub killed : Bool
  pub ofile : List ℕ
  pub cwd : ℕ
  pub name : List ℕ
  pub ticks_at_start : ℕ
  pub ticks_scheduled : ℕ
  pub priority : ℤ

-- p->parent == curproc
abbrev pub is_child : ℕ → Proc → Bool
is_child cur p = elim p.parent [ none ↦ false | some i ↦ i == cur ]

-- The body of the loop of wakeup1().
abbrev pub wake : Chan → Proc → Proc
wake c p =
    if state_eq p.state sleeping && chan_eq p.chan c then record p { state = runnable } else p

unfoldable pub wakeup1 : Chan → List Proc → List Proc
wakeup1 c [] = []
wakeup1 c (p ∷ ps) = wake c p ∷ wakeup1 c ps

-- kill(): the new table, and whether a process has the pid.
unfoldable pub kill : ℕ → List Proc → List Proc × Bool
kill pid [] = ([], false)
kill pid (p ∷ ps) =
    let rest = kill pid ps in
    if p.pid == pid
    then (
      record p { killed = true; state = if state_eq p.state sleeping then runnable else p.state }
          ∷ ps,
      true,
    )
    else (p ∷ rest.0, rest.1)

-- proc_nice(): every process with the pid gets the priority. The loop ends at the end of the table,
-- and the value returned is read there, behind the last slot: `none` stands for it.
unfoldable pub proc_nice : ℕ → ℤ → List Proc → List Proc × Option ℤ
proc_nice pid priority [] = ([], none)
proc_nice pid priority (p ∷ ps) =
    let rest = proc_nice pid priority ps in
    ((if p.pid == pid then record p { priority = priority } else p) ∷ rest.0, rest.1)
