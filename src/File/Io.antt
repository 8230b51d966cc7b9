-- ===== src/File/Io.antt =====
-- file.c: fileread(), filewrite() and filestat(), over what pipe.c and fs.c do, and the locks of files.
pub mod Chunks
mod Tests
use large_project.Prelude.{
  ℕ, zero, suc, ◌+◌, ◌-◌, ◌*◌, ◌/◌, Bool, true, false, not, ◌&&◌, ◌||◌, ltb, ◌==◌, if◌then◌else◌,
}
use large_project.Prelude.Int.{ℤ, pos, negsuc, ltb_ℤ}
use large_project.Prelude.Param.{maxopblocks}
use large_project.Prelude.Outcome.{Outcome, ok, panic, ◌>>=◌}
use large_project.File.{File, FileType, fd_none, fd_pipe, fd_inode}

-- What file.c calls, over the state of the rest of the kernel; a result below 0 is an error.
pub record Below : Type 1 where
  pub State : Type 0
  pub piperead : ℕ → ℕ → ℕ → State → ℤ × State
  pub pipewrite : ℕ → ℕ → ℕ → State → ℤ × State
  pub ilock : ℕ → State → State
  pub iunlock : ℕ → State → State
  pub readi : ℕ → ℕ → ℕ → ℕ → State → ℤ × State
  pub writei : ℕ → ℕ → ℕ → ℕ → State → ℤ × State
  pub stati : ℕ → ℕ → State → State
  pub begin_op : State → State
  pub end_op : State → State

-- The result of the call, the file, and the rest.
abbrev pub advance : ℤ → ℕ → ℕ
advance (pos r) off = off + r
advance (negsuc r) off = off

-- The bytes that one transaction of filewrite() writes at most.
abbrev pub max_chunk : ℕ
max_chunk = (maxopblocks - 1 - 1 - 2) / 2 * 512

-- The bytes that the next turn writes, with `left` to go.
abbrev pub chunk : ℕ → ℕ
chunk left = if ltb max_chunk left then max_chunk else left

abbrev pub is_int : ℤ → ℕ → Bool
is_int (pos a) n = a == n
is_int (negsuc a) n = false

module _ (below : Below) where
  open below use {
    State, piperead, pipewrite, ilock, iunlock, readi, writei, stati, begin_op, end_op,
  }

  -- filestat(): false for -1.
  unfoldable pub filestat : File → ℕ → State → Bool × State
  filestat f st s = elim f.kind [
    | fd_inode ↦ (true, iunlock f.ip (stati f.ip st (ilock f.ip s)))
    | fd_none ↦ (false, s)
    | fd_pipe ↦ (false, s)
  ]

  -- fileread() of an inode.
  unfoldable pub read_inode : File → ℕ → ℕ → State → ℤ × File × State
  read_inode f addr n s =
      let r = readi f.ip addr f.off n (ilock f.ip s) in
      (r.0, record f { off = advance r.0 f.off }, iunlock f.ip r.1)

  unfoldable pub fileread : File → ℕ → ℕ → State → Outcome (ℤ × File × State)
  unfolding read_inode
  fileread f addr n s = if not f.readable then ok (negsuc 0, f, s) else elim f.kind [
    | fd_pipe ↦ (let r = piperead f.pipe addr n s in ok (r.0, f, r.1))
    | fd_inode ↦ ok (read_inode f addr n s)
    | fd_none ↦ panic "fileread"
  ]

  -- One turn of the loop of filewrite(), of `n1` bytes at `addr`: a transaction of its own.
  unfoldable pub write_chunk : File → ℕ → ℕ → State → ℤ × File × State
  write_chunk f addr n1 s =
      let r = writei f.ip addr f.off n1 (ilock f.ip (begin_op s)) in
      (r.0, record f { off = advance r.0 f.off }, end_op (iunlock f.ip r.1))

  -- The loop, with `left` bytes to go from `addr` on and the fuel `k`: whether all were written.
  unfoldable pub write_chunks : ℕ → File → ℕ → ℕ → State → Outcome (Bool × File × State)
  unfolding write_chunk
  write_chunks zero f addr left s = ok (left == 0, f, s)
  write_chunks (suc k) f addr left s =
      if left == 0
      then ok (true, f, s)
      else (let r = write_chunk f addr (chunk left) s in
          if ltb_ℤ r.0 (pos 0)
          then ok (false, r.1, r.2)
          else if not (is_int r.0 (chunk left))
          then panic "short filewrite"
          else write_chunks k r.1 (addr + chunk left) (left - chunk left) r.2)

  unfoldable pub written_all : ℕ → Bool × File × State → Outcome (ℤ × File × State)
  written_all n (all, f, s) = ok ((if all then pos n else negsuc 0), f, s)

  -- filewrite(): one turn of the loop for each byte is more than enough.
  unfoldable pub filewrite : File → ℕ → ℕ → State → Outcome (ℤ × File × State)
  unfolding write_chunks written_all
  filewrite f addr n s = if not f.writable then ok (negsuc 0, f, s) else elim f.kind [
    | fd_pipe ↦ (let r = pipewrite f.pipe addr n s in ok (r.0, f, r.1))
    | fd_inode ↦ write_chunks n f addr n s >>= written_all n
    | fd_none ↦ panic "filewrite"
  ]
