-- ===== src/Fs/Calls.antt =====
-- sysfile.c: the system calls on paths, between begin_op() and end_op() (log.c). A path is `none` where
-- argstr() fails; the result 0 is `true`, and -1 is `false`. `nlink` is a `short`.
use large_project.Prelude.{
  ℕ, zero, suc, ◌+◌, ◌-◌, ◌%◌, Bool, true, false, not, ◌&&◌, ◌||◌, Option, none, some, List, [],
  ◌∷◌, ltb, ◌==◌, if◌then◌else◌,
}
use large_project.Fs.Layout.{Super}
use large_project.Fs.State.{M, ◌>>=◌, ◌>>◌, pure, stop, get_inode, put_inode}
use large_project.Fs.Inode.{iunlock}
use large_project.Fs.Update.{ialloc, iupdate, ilock, iput, iunlockput}
use large_project.Fs.Content.{Devsw, t_dir, readi, writei}
use large_project.Fs.Dir.{namecmp, as_dirent, sized, dir_entries, dirlookup, dirlink}
use large_project.Fs.Path.{namei, nameiparent}

-- T_FILE
abbrev pub t_file : ℕ
t_file = 2

-- "." and ".."
abbrev pub dot : List ℕ
dot = 46 ∷ []

abbrev pub dot_dot : List ℕ
dot_dot = 46 ∷ 46 ∷ []

module _ (sb : Super) (devsw : ℕ → Devsw) (me : ℕ) where
  -- ip->nlink++ and ip->nlink--, with iupdate(ip)
  unfoldable pub inc_nlink : ℕ → M (Unit {0})
  unfolding get_inode put_inode iupdate
  inc_nlink ip = do
    e ← get_inode ip
    put_inode ip (record e { nlink = (e.nlink + 1) % 65536 })
    iupdate sb ip

  unfoldable pub dec_nlink : ℕ → M (Unit {0})
  unfolding get_inode put_inode iupdate
  dec_nlink ip = do
    e ← get_inode ip
    put_inode ip (record e { nlink = (e.nlink + 65535) % 65536 })
    iupdate sb ip

  -- `bad:` in sys_link()
  unfoldable pub undo_link : ℕ → M Bool
  unfolding ilock dec_nlink iunlockput
  undo_link ip = do ilock sb me (some ip); dec_nlink ip; iunlockput sb me ip; pure false

  -- The new name in sys_link(), with the result of nameiparent().
  unfoldable pub link_name : ℕ → Option (ℕ × List ℕ) → M Bool
  unfolding get_inode ilock dirlink iunlockput iput undo_link
  link_name ip none = undo_link ip
  link_name ip (some (dp, name)) = do
    ilock sb me (some dp)
    d ← get_inode dp
    e ← get_inode ip
    if not (d.dev == e.dev) then (do iunlockput sb me dp; undo_link ip) else (do
      r ← dirlink sb devsw me dp name e.inum
      iunlockput sb me dp
      if r then (do iput sb me ip; pure true) else undo_link ip)

  -- sys_link() with the inode of the old path.
  unfoldable pub link_inode : ℕ → List ℕ → Option ℕ → M Bool
  unfolding get_inode ilock iunlock iunlockput inc_nlink nameiparent link_name
  link_inode cwd new none = pure false
  link_inode cwd new (some ip) = do
    ilock sb me (some ip)
    e ← get_inode ip
    if e.kind == t_dir then (do iunlockput sb me ip; pure false) else (do
      inc_nlink ip
      iunlock me (some ip)
      r ← nameiparent sb devsw me cwd new
      link_name ip r)

  unfoldable pub sys_link : ℕ → Option (List ℕ) → Option (List ℕ) → M Bool
  unfolding namei link_inode
  sys_link cwd none new = pure false
  sys_link cwd (some old) none = pure false
  sys_link cwd (some old) (some new) = do r ← namei sb devsw me cwd old; link_inode cwd new r

  -- The loop of isdirempty() from `off` on, over `n` entries.
  unfoldable pub empty_from : ℕ → ℕ → ℕ → M Bool
  unfolding readi as_dirent sized
  empty_from dp off zero = pure true
  empty_from dp off (suc n) =
      let rest = empty_from dp (off + 16) n in
      (do
        r ← readi sb devsw dp off 16
        de ← sized "isdirempty: readi" (as_dirent r)
        if de.inum == 0 then rest else pure false)

  unfoldable pub isdirempty : ℕ → M Bool
  unfolding get_inode dir_entries empty_from
  isdirempty dp = do d ← get_inode dp; empty_from dp 32 (dir_entries sb devsw d - 2)

  -- `bad:` in sys_unlink()
  unfoldable pub leave : ℕ → M Bool
  unfolding iunlockput
  leave dp = do iunlockput sb me dp; pure false

  -- The entry at `off` is cleared, and the inode loses a link.
  unfoldable pub erase : ℕ → ℕ → ℕ → Option ℕ → M Bool
  unfolding get_inode dec_nlink iunlockput
  erase dp ip off none = stop "unlink: writei"
  erase dp ip off (some n) = if not (n == 16) then stop "unlink: writei" else (do
    e ← get_inode ip
    if e.kind == t_dir then dec_nlink dp else pure tt
    iunlockput sb me dp
    dec_nlink ip
    iunlockput sb me ip
    pure true)

  -- isdirempty() of a directory; any other inode may be removed.
  unfoldable pub removable : ℕ → M Bool
  unfolding get_inode isdirempty
  removable ip = do e ← get_inode ip; if e.kind == t_dir then isdirempty ip else pure true

  abbrev pub no_dirent : List ℕ
  no_dirent = 0 ∷ 0 ∷ 0 ∷ 0 ∷ 0 ∷ 0 ∷ 0 ∷ 0 ∷ 0 ∷ 0 ∷ 0 ∷ 0 ∷ 0 ∷ 0 ∷ 0 ∷ 0 ∷ []

  -- sys_unlink() with what dirlookup() found.
  unfoldable pub unlink_entry : ℕ → Option (ℕ × ℕ) → M Bool
  unfolding get_inode ilock removable iunlockput leave writei erase
  unlink_entry dp none = leave dp
  unlink_entry dp (some (ip, off)) = do
    ilock sb me (some ip)
    e ← get_inode ip
    if ltb e.nlink 1 || ltb 32767 e.nlink then stop "unlink: nlink < 1" else (do
      free ← removable ip
      if not free
          then (do iunlockput sb me ip; leave dp)
          else (do r ← writei sb devsw dp no_dirent off; erase dp ip off r))

  unfoldable pub unlink_name : Option (ℕ × List ℕ) → M Bool
  unfolding ilock namecmp leave dirlookup unlink_entry
  unlink_name none = pure false
  unlink_name (some (dp, name)) = do
    ilock sb me (some dp)
    if namecmp name dot || namecmp name dot_dot
        then leave dp
        else (do r ← dirlookup sb devsw dp name; unlink_entry dp r)

  unfoldable pub sys_unlink : ℕ → Option (List ℕ) → M Bool
  unfolding nameiparent unlink_name
  sys_unlink cwd none = pure false
  sys_unlink cwd (some path) = do r ← nameiparent sb devsw me cwd path; unlink_name r

  -- The entries "." and ".." of a new directory; `&&` as the source's `||` of failures.
  unfoldable pub add_dots : ℕ → ℕ → M (Unit {0})
  unfolding get_inode inc_nlink dirlink
  add_dots dp ip = do
    inc_nlink dp
    e ← get_inode ip
    d ← get_inode dp
    r ← dirlink sb devsw me ip dot e.inum
    s ← (if r then dirlink sb devsw me ip dot_dot d.inum else pure false)
    if s then pure tt else stop "create dots"

  -- create() where the name is not there.
  unfoldable pub create_new : ℕ → List ℕ → ℕ → ℕ → ℕ → M (Option ℕ)
  unfolding get_inode put_inode ialloc iupdate ilock add_dots dirlink iunlockput
  create_new dp name type major minor = do
    d ← get_inode dp
    ip ← ialloc sb d.dev type
    ilock sb me (some ip)
    e ← get_inode ip
    put_inode ip (record e { major = major % 65536; minor = minor % 65536; nlink = 1 })
    iupdate sb ip
    if type == t_dir then add_dots dp ip else pure tt
    r ← dirlink sb devsw me dp name e.inum
    if r then (do iunlockput sb me dp; pure (some ip)) else stop "create: dirlink"

  -- create() with what dirlookup() found.
  unfoldable pub create_entry : ℕ → List ℕ → ℕ → ℕ → ℕ → Option (ℕ × ℕ) → M (Option ℕ)
  unfolding get_inode ilock iunlockput create_new
  create_entry dp name type major minor none = create_new dp name type major minor
  create_entry dp name type major minor (some (ip, off)) = do
    iunlockput sb me dp
    ilock sb me (some ip)
    e ← get_inode ip
    if type == t_file && e.kind == t_file
        then pure (some ip)
        else (do iunlockput sb me ip; pure none)

  unfoldable pub create_in : ℕ → ℕ → ℕ → Option (ℕ × List ℕ) → M (Option ℕ)
  unfolding ilock dirlookup create_entry
  create_in type major minor none = pure none
  create_in type major minor (some (dp, name)) = do
    ilock sb me (some dp)
    r ← dirlookup sb devsw dp name
    create_entry dp name type major minor r

  unfoldable pub create : ℕ → List ℕ → ℕ → ℕ → ℕ → M (Option ℕ)
  unfolding nameiparent create_in
  create cwd path type major minor = do
    r ← nameiparent sb devsw me cwd path
    create_in type major minor r
