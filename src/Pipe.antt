-- ===== src/Pipe.antt =====
-- pipe.c: a ring of PIPESIZE bytes between two file structures. `nread` and `nwrite` are `uint`
-- counters that wrap; what `p->lock` encloses between two sleeps is one step.
pub mod Contents
pub mod Transfer
mod Tests
use large_project.Prelude.{
  ℕ, zero, suc, ◌+◌, ◌-◌, ◌%◌, Bool, true, false, not, ◌&&◌, ◌||◌, List, [], ◌∷◌, ◌++◌, ◌==◌,
  if◌then◌else◌,
}
use large_project.Prelude.Int.{ℤ, pos, negsuc}
use large_project.Prelude.Param.{uint_mod}
use large_project.Disk.{update}

-- PIPESIZE
abbrev pub pipesize : ℕ
pipesize = 512

-- `struct pipe`, with the numbers of the processes that sleep on `&p->nread` and on `&p->nwrite`.
pub record Pipe : Type 0 where
  pub data' : ℕ → ℕ
  pub nread : ℕ
  pub nwrite : ℕ
  pub readopen : Bool
  pub writeopen : Bool
  pub readers : ℕ
  pub writers : ℕ

-- wakeup(&p->nread) and wakeup(&p->nwrite)
abbrev pub wake_readers : Pipe → Pipe
wake_readers p = record p { readers = 0 }

abbrev pub wake_writers : Pipe → Pipe
wake_writers p = record p { writers = 0 }

-- What pipealloc() stores into a new pipe.
abbrev pub new_pipe : (ℕ → ℕ) → Pipe
new_pipe junk = record {
  data' = junk;
  nread = 0;
  nwrite = 0;
  readopen = true;
  writeopen = true;
  readers = 0;
  writers = 0;
}

-- pipeclose(): the pipe, and whether it is freed.
unfoldable pub pipeclose : Pipe → Bool → Pipe × Bool
pipeclose p writable =
    let p' =
      if writable
      then wake_readers (record p { writeopen = false })
      else wake_writers (record p { readopen = false }) in
    (p', not p'.readopen && not p'.writeopen)

-- p->nwrite == p->nread + PIPESIZE
abbrev pub is_full : Pipe → Bool
is_full p = p.nwrite == (p.nread + pipesize) % uint_mod

-- p->nread == p->nwrite
abbrev pub is_empty : Pipe → Bool
is_empty p = p.nread == p.nwrite

-- p->data[p->nwrite++ % PIPESIZE] = x
abbrev pub put : Pipe → ℕ → Pipe
put p x = record p {
  data' = update p.data' (p.nwrite % pipesize) x;
  nwrite = (p.nwrite + 1) % uint_mod;
}

-- How a call of pipewrite() goes on: it returns its value, or sleeps on `&p->nwrite` with these bytes
-- still to write.
pub data Writes : Type 0 where
  returns : ℤ → Writes
  sleeps : List ℕ → Writes

-- The loop of pipewrite() over the bytes that are left; `n` is the number that it was called with.
unfoldable pub pipewrite : Bool → ℕ → List ℕ → Pipe → Writes × Pipe
pipewrite killed n [] p = (returns (pos n), wake_readers p)
pipewrite killed n (x ∷ xs) p =
    let rest = pipewrite killed n xs (put p x) in
    if is_full p
    then if not p.readopen || killed
      then (returns (negsuc 0), p)
      else (sleeps (x ∷ xs), record p { readers = 0; writers = p.writers + 1 })
    else rest

-- The copying loop of piperead(), with `n` bytes wanted: the bytes read.
unfoldable pub piperead_copy : ℕ → Pipe → List ℕ × Pipe
piperead_copy zero p = ([], p)
piperead_copy (suc n) p =
    let rest = piperead_copy n (record p { nread = (p.nread + 1) % uint_mod }) in
    if is_empty p then ([], p) else (p.data' (p.nread % pipesize) ∷ rest.0, rest.1)

-- A call of piperead(): it fails, returns bytes, or sleeps on `&p->nread`.
pub data Reads : Type 0 where
  fails : Reads
  reads : List ℕ → Reads
  sleeps : Reads

unfoldable pub piperead : Bool → ℕ → Pipe → Reads × Pipe
unfolding piperead_copy
piperead killed n p =
    if is_empty p && p.writeopen
    then if killed then (fails, p) else (Reads.sleeps, record p { readers = p.readers + 1 })
    else (reads (piperead_copy n p).0, wake_writers (piperead_copy n p).1)
