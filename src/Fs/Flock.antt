-- ===== src/Fs/Flock.antt =====
-- filelock() and fileunlock() of file.c, and sys_flock() and sys_funlock() of sysfile.c: the lock of an
-- open file's inode as a semaphore. The result 0 is `true`, and -1 is `false`.
use large_project.Prelude.{
  ℕ, zero, suc, Bool, true, false, not, ◌&&◌, Option, none, some, ltb, if◌then◌else◌,
}
use large_project.Sleeplock.{holdingsleep}
use large_project.File.{File, Files, argfd}
use large_project.Fs.State.{M, ◌>>=◌, ◌>>◌, pure, get_inode}
use large_project.Fs.Inode.{fsemaphore_lock, fsemaphore_unlock}

-- The entry that a pointer is to: one less than the pointer.
unfoldable pub entry_of : ℕ → Option ℕ
entry_of zero = none
entry_of (suc i) = some i

module _ (me : ℕ) where
  unfoldable pub lock_entry : Option ℕ → M Bool
  unfolding get_inode fsemaphore_lock
  lock_entry none = pure false
  lock_entry (some ip) = do
    e ← get_inode ip
    if ltb e.ref 1 then pure false else (do fsemaphore_lock me (some ip); pure true)

  unfoldable pub filelock : File → M Bool
  unfolding entry_of lock_entry
  filelock f = lock_entry (entry_of f.ip)

  unfoldable pub unlock_entry : Option ℕ → M Bool
  unfolding get_inode holdingsleep fsemaphore_unlock
  unlock_entry none = pure false
  unlock_entry (some ip) = do
    e ← get_inode ip
    if holdingsleep me e.flock && not (ltb e.ref 1)
        then (do fsemaphore_unlock me (some ip); pure true)
        else pure false

  unfoldable pub fileunlock : File → M Bool
  unfolding entry_of unlock_entry
  fileunlock f = unlock_entry (entry_of f.ip)

  unfoldable pub lock_file : Files → Option ℕ → M Bool
  unfolding filelock
  lock_file s none = pure false
  lock_file s (some f) = filelock (s.ftable f)

  -- sys_flock(), with its argument fetched.
  unfoldable pub sys_flock : Files → ℕ → M Bool
  unfolding argfd lock_file
  sys_flock s fd = lock_file s (argfd s.ofile fd)

  unfoldable pub unlock_file : Files → Option ℕ → M Bool
  unfolding fileunlock
  unlock_file s none = pure false
  unlock_file s (some f) = fileunlock (s.ftable f)

  unfoldable pub sys_funlock : Files → ℕ → M Bool
  unfolding argfd unlock_file
  sys_funlock s fd = unlock_file s (argfd s.ofile fd)
