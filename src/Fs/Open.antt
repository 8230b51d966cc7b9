-- ===== src/Fs/Open.antt =====
-- sysfile.c: sys_open(), sys_mkdir(), sys_mknod() and sys_chdir(), with their arguments fetched. A path is
-- `none` where argstr() fails. `cwd` is the process's directory, and `files` has its descriptors.
use large_project.Prelude.{
  ℕ, suc, Bool, true, false, not, ◌&&◌, ◌||◌, Option, none, some, List, ◌==◌, if◌then◌else◌,
}
use large_project.Prelude.Outcome.{Outcome, ok, panic}
use large_project.File.{
  Ftable, File, fd_inode, set_file, filealloc, fileclose, Closing, Ofile, fdalloc, Files,
}
use large_project.Fs.Bits.{test_bit}
use large_project.Fs.Layout.{Super}
use large_project.Fs.State.{M, ◌>>=◌, ◌>>◌, pure, stop, get_inode}
use large_project.Fs.Inode.{iunlock}
use large_project.Fs.Update.{ilock, iput, iunlockput}
use large_project.Fs.Content.{Devsw, t_dir, t_dev}
use large_project.Fs.Path.{namei}
use large_project.Fs.Calls.{t_file, create}

-- The descriptor, `none` for -1, and the files.
abbrev pub Opened : Type 0
Opened = Option ℕ × Files

-- The fields of the file for `ip`, whose pointer is one more than its index, for 0 is null: O_WRONLY is bit 0 of `omode`, and O_RDWR bit 1.
unfoldable pub open_for : File → ℕ → ℕ → File
unfolding test_bit
open_for f ip omode = record f {
  kind = fd_inode;
  ip = suc ip;
  off = 0;
  readable = not (test_bit omode 0);
  writable = test_bit omode 0 || test_bit omode 1;
}

module _ (sb : Super) (devsw : ℕ → Devsw) (me : ℕ) where
  -- The inode with no descriptor for it
  unfoldable pub drop_inode : ℕ → Files → M Opened
  unfolding iunlockput
  drop_inode ip s = do iunlockput sb me ip; pure (none, s)

  -- fileclose() of the new file, whose type is FD_NONE: there is nothing more to close.
  unfoldable pub drop_file : ℕ → Ofile → Outcome (Ftable × Closing) → M Opened
  unfolding drop_inode
  drop_file ip o (panic e) = stop e
  drop_file ip o (ok (t, c)) = drop_inode ip (record { ofile = o; ftable = t })

  unfoldable pub with_fd : ℕ → ℕ → Ofile → ℕ → Ftable → Option (ℕ × Ofile) → M Opened
  unfolding fileclose drop_file iunlock open_for
  with_fd ip omode o f t none = drop_file ip o (fileclose t f)
  with_fd ip omode o f t (some (fd, o')) = do
    iunlock me (some ip)
    pure (some fd, record { ofile = o'; ftable = set_file t f (open_for (t f) ip omode) })

  unfoldable pub with_file : ℕ → ℕ → Files → Option (ℕ × Ftable) → M Opened
  unfolding fdalloc drop_inode with_fd
  with_file ip omode s none = drop_inode ip s
  with_file ip omode s (some (f, t)) = with_fd ip omode s.ofile f t (fdalloc s.ofile f)

  -- The inode that sys_open() has locked.
  unfoldable pub open_inode : ℕ → Files → Option ℕ → M Opened
  unfolding filealloc with_file
  open_inode omode s none = pure (none, s)
  open_inode omode s (some ip) = with_file ip omode s (filealloc s.ftable)

  -- An inode that is there: a directory is only opened for reading.
  unfoldable pub lock_found : ℕ → Option ℕ → M (Option ℕ)
  unfolding get_inode ilock iunlockput
  lock_found omode none = pure none
  lock_found omode (some ip) = do
    ilock sb me (some ip)
    e ← get_inode ip
    if e.kind == t_dir && not (omode == 0)
        then (do iunlockput sb me ip; pure none)
        else pure (some ip)

  -- O_CREATE is bit 9 of `omode`.
  unfoldable pub find_inode : ℕ → List ℕ → ℕ → M (Option ℕ)
  unfolding test_bit create namei lock_found
  find_inode cwd path omode =
      if test_bit omode 9
      then create sb devsw me cwd path t_file 0 0
      else (do r ← namei sb devsw me cwd path; lock_found omode r)

  unfoldable pub sys_open : ℕ → Option (List ℕ) → ℕ → Files → M Opened
  unfolding find_inode open_inode
  sys_open cwd none omode s = pure (none, s)
  sys_open cwd (some path) omode s = do r ← find_inode cwd path omode; open_inode omode s r

  -- What create() made is let go.
  unfoldable pub made : Option ℕ → M Bool
  unfolding iunlockput
  made none = pure false
  made (some ip) = do iunlockput sb me ip; pure true

  unfoldable pub sys_mkdir : ℕ → Option (List ℕ) → M Bool
  unfolding create made
  sys_mkdir cwd none = pure false
  sys_mkdir cwd (some path) = do r ← create sb devsw me cwd path t_dir 0 0; made r

  unfoldable pub sys_mknod : ℕ → Option (List ℕ) → ℕ → ℕ → M Bool
  unfolding create made
  sys_mknod cwd none major minor = pure false
  sys_mknod cwd (some path) major minor = do
    r ← create sb devsw me cwd path t_dev major minor
    made r

  -- The new directory of the process, `none` for -1.
  unfoldable pub enter_dir : ℕ → Option ℕ → M (Option ℕ)
  unfolding get_inode ilock iunlock iput iunlockput
  enter_dir cwd none = pure none
  enter_dir cwd (some ip) = do
    ilock sb me (some ip)
    e ← get_inode ip
    if not (e.kind == t_dir)
        then (do iunlockput sb me ip; pure none)
        else (do iunlock me (some ip); iput sb me cwd; pure (some ip))

  unfoldable pub sys_chdir : ℕ → Option (List ℕ) → M (Option ℕ)
  unfolding namei enter_dir
  sys_chdir cwd none = pure none
  sys_chdir cwd (some path) = do r ← namei sb devsw me cwd path; enter_dir cwd r
