-- ===== src/File.antt =====
-- file.c, and the calls of sysfile.c that work on the descriptors alone: the table of open files with
-- its reference counts, which `ftable.lock` guards, and the descriptors of a process. A pointer into
-- the table is an index, and `ip` and `pipe` are addresses.
pub mod Refs
pub mod Io
pub mod Pipes
mod Tests
use large_project.Prelude.{
  ℕ, zero, suc, ◌+◌, ◌-◌, Bool, true, false, ◌||◌, List, [], ◌∷◌, Option, none, some, ltb, leb,
  ◌==◌, if◌then◌else◌, get_elem?, set,
}
use large_project.Prelude.Param.{nfile, nofile}
use large_project.Prelude.Outcome.{Outcome, ok, panic, ◌>>=◌}
use large_project.Syscall.{is_negative}

pub data FileType : Type 0 where
  fd_none : FileType
  fd_pipe : FileType
  fd_inode : FileType

-- `ref` never reaches the bound of `int`, for there are NPROC * NOFILE descriptors at most.
pub record File : Type 0 where
  pub kind : FileType
  pub ref : ℕ
  pub readable : Bool
  pub writable : Bool
  pub pipe : ℕ
  pub ip : ℕ
  pub off : ℕ

abbrev pub Ftable : Type 0
Ftable = ℕ → File

abbrev pub set_file : Ftable → ℕ → File → Ftable
set_file t i f j = if j == i then f else t j

-- The loop of filealloc() from slot `i` on, with `n` slots to go.
unfoldable pub find_free : Ftable → ℕ → ℕ → Option ℕ
find_free t i zero = none
find_free t i (suc n) = let rest = find_free t (i + 1) n in if (t i).ref == 0 then some i else rest

unfoldable pub take_slot : Ftable → Option ℕ → Option (ℕ × Ftable)
take_slot t none = none
take_slot t (some i) = some (i, set_file t i (record (t i) { ref = 1 }))

unfoldable pub filealloc : Ftable → Option (ℕ × Ftable)
unfolding find_free take_slot
filealloc t = take_slot t (find_free t 0 nfile)

unfoldable pub filedup : Ftable → ℕ → Outcome Ftable
filedup t i =
    if (t i).ref == 0
    then panic "filedup"
    else ok (set_file t i (record (t i) { ref = (t i).ref + 1 }))

-- What fileclose() does after it releases the lock: nothing, pipeclose(ff.pipe, ff.writable), or
-- iput(ff.ip) in a transaction.
pub data Closing : Type 0 where
  nothing : Closing
  close_pipe : ℕ → Bool → Closing
  put_inode : ℕ → Closing

unfoldable pub closing : File → FileType → Closing
closing f fd_none = nothing
closing f fd_pipe = close_pipe f.pipe f.writable
closing f fd_inode = put_inode f.ip

unfoldable pub fileclose : Ftable → ℕ → Outcome (Ftable × Closing)
unfolding closing
fileclose t i =
    if (t i).ref == 0
    then panic "fileclose"
    else if ltb 1 (t i).ref
    then ok (set_file t i (record (t i) { ref = (t i).ref - 1 }), nothing)
    else ok (set_file t i (record (t i) { ref = 0; kind = fd_none }), closing (t i) (t i).kind)

-- The descriptors of a process: `ofile`, with `none` for a null pointer.
abbrev pub Ofile : Type 0
Ofile = List (Option ℕ)

unfoldable pub join : Option (Option ℕ) → Option ℕ
join none = none
join (some o) = o

-- argfd() behind argint(): the file of descriptor `fd`.
unfoldable pub argfd : Ofile → ℕ → Option ℕ
unfolding join
argfd o fd = if is_negative fd || leb nofile fd then none else join (get_elem? o fd)

unfoldable pub after_fd : Option ℕ → Option (ℕ × Ofile) → Option (ℕ × Ofile)
after_fd g none = none
after_fd g (some (fd, o)) = some (suc fd, g ∷ o)

unfoldable pub fdalloc : Ofile → ℕ → Option (ℕ × Ofile)
unfolding after_fd
fdalloc [] f = none
fdalloc (none ∷ o) f = some (0, some f ∷ o)
fdalloc (some g ∷ o) f = after_fd (some g) (fdalloc o f)

-- A process's descriptors and the table of files.
pub record Files : Type 0 where
  pub ofile : Ofile
  pub ftable : Ftable

-- The value that a system call returns, `none` for -1, and what it leaves.
abbrev pub Result : Type 0
Result = Outcome (Option ℕ × Files)

unfoldable pub dup_to : Files → ℕ → Option (ℕ × Ofile) → Result
unfolding filedup
dup_to s f none = ok (none, s)
dup_to s f (some (fd, o)) =
    filedup s.ftable f >>= λ t. ok (some fd, record { ofile = o; ftable = t })

unfoldable pub dup_file : Files → Option ℕ → Result
unfolding fdalloc dup_to
dup_file s none = ok (none, s)
dup_file s (some f) = dup_to s f (fdalloc s.ofile f)

-- sys_dup(), with its argument fetched.
unfoldable pub sys_dup : Files → ℕ → Result
unfolding argfd dup_file
sys_dup s fd = dup_file s (argfd s.ofile fd)

unfoldable pub close_file : Files → ℕ → Option ℕ → Outcome ((Option ℕ × Files) × Closing)
unfolding fileclose
close_file s fd none = ok ((none, s), nothing)
close_file s fd (some f) = fileclose s.ftable f >>= λ r.
    ok ((some 0, record { ofile = set s.ofile fd none; ftable = r.0 }), r.1)

-- sys_close(), with its argument fetched.
unfoldable pub sys_close : Files → ℕ → Outcome ((Option ℕ × Files) × Closing)
unfolding argfd close_file
sys_close s fd = close_file s fd (argfd s.ofile fd)
