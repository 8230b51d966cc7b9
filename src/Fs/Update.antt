-- ===== src/Fs/Update.antt =====
-- fs.c: the inodes on the disk, and the blocks that hold their bytes.
use large_project.Prelude.{
  ℕ, zero, suc, ◌+◌, ◌-◌, ◌*◌, false, ◌&&◌, Option, none, some, ltb, ◌==◌, if◌then◌else◌,
}
use large_project.Disk.{update}
use large_project.Strings.{memset}
use large_project.Fs.Layout.{
  Super, ndirect, nindirect, iblock, get_short, put_short, get_word, put_word, get_dinode,
  put_dinode,
}
use large_project.Fs.State.{
  M, ◌>>=◌, ◌>>◌, pure, stop, read_block, write_block, get_inode, put_inode,
}
use large_project.Fs.Blocks.{balloc, bfree}
use large_project.Fs.Inode.{iget, acquire_inode, release_inode, iunlock, on_disk, load, ioffset}

module _ (sb : Super) where
  -- The loop of ialloc() from `inum` on, over `n` inodes.
  unfoldable pub ialloc_from : ℕ → ℕ → ℕ → ℕ → M ℕ
  unfolding read_block write_block get_short put_short memset iget
  ialloc_from dev type inum zero = stop "ialloc: no inodes"
  ialloc_from dev type inum (suc n) =
      let rest = ialloc_from dev type (inum + 1) n in
      (do
        bp ← read_block (iblock inum sb)
        if get_short bp (ioffset inum) == 0
            then (do
              write_block (iblock inum sb)
                  (put_short (memset bp (ioffset inum) 0 64) (ioffset inum) type)
              iget dev inum)
            else rest)

  unfoldable pub ialloc : ℕ → ℕ → M ℕ
  unfolding ialloc_from
  ialloc dev type = ialloc_from dev type 1 (sb.ninodes - 1)

  unfoldable pub iupdate : ℕ → M (Unit {0})
  unfolding get_inode read_block write_block put_dinode
  iupdate ip = do
    e ← get_inode ip
    bp ← read_block (iblock e.inum sb)
    write_block (iblock e.inum sb) (put_dinode bp (ioffset e.inum) (on_disk e))

  -- ilock() once it has the lock
  unfoldable pub load_inode : ℕ → M (Unit {0})
  unfolding get_inode read_block put_inode get_dinode
  load_inode ip = do
    e ← get_inode ip
    if e.valid then pure tt else (do
      bp ← read_block (iblock e.inum sb)
      put_inode ip (load e (get_dinode bp (ioffset e.inum)))
      if get_short bp (ioffset e.inum) == 0 then stop "ilock: no type" else pure tt)

  unfoldable pub ilock : ℕ → Option ℕ → M (Unit {0})
  unfolding get_inode acquire_inode load_inode
  ilock me none = stop "ilock"
  ilock me (some ip) = do
    e ← get_inode ip
    if ltb e.ref 1 then stop "ilock" else (do acquire_inode me ip; load_inode ip)

  -- ip->addrs[i] = addr
  unfoldable pub set_addr : ℕ → ℕ → ℕ → M (Unit {0})
  unfolding get_inode put_inode
  set_addr ip i addr = do
    e ← get_inode ip
    put_inode ip (record e { addrs = update e.addrs i addr })

  -- Entry `i` of ip->addrs, where a block is allocated if there is none.
  unfoldable pub addr_entry : ℕ → ℕ → M ℕ
  unfolding get_inode set_addr balloc
  addr_entry ip i = do
    e ← get_inode ip
    if e.addrs i == 0
        then (do addr ← balloc sb; set_addr ip i addr; pure addr)
        else pure (e.addrs i)

  -- The same for entry `i` of the indirect block `b`, whose buffer bmap() holds: a change of the block
  -- by balloc() would show in it.
  unfoldable pub indirect_entry : ℕ → ℕ → M ℕ
  unfolding read_block write_block get_word put_word balloc
  indirect_entry b i = do
    a ← read_block b
    if get_word a (4 * i) == 0
        then (do
          addr ← balloc sb
          now ← read_block b
          write_block b (put_word now (4 * i) addr)
          pure addr)
        else pure (get_word a (4 * i))

  unfoldable pub bmap : ℕ → ℕ → M ℕ
  unfolding addr_entry indirect_entry
  bmap ip bn =
      if ltb bn ndirect
      then addr_entry ip bn
      else if ltb (bn - ndirect) nindirect
      then (do addr ← addr_entry ip ndirect; indirect_entry addr (bn - ndirect))
      else stop "bmap: out of range"

  -- The first loop of itrunc() from `i` on, over `n` entries.
  unfoldable pub free_direct : ℕ → ℕ → ℕ → M (Unit {0})
  unfolding get_inode set_addr bfree
  free_direct ip i zero = pure tt
  free_direct ip i (suc n) =
      let rest = free_direct ip (i + 1) n in
      (do
        e ← get_inode ip
        if e.addrs i == 0 then rest else (do bfree sb (e.addrs i); set_addr ip i 0; rest))

  -- The second loop, over the entries of the indirect block `b`.
  unfoldable pub free_indirect : ℕ → ℕ → ℕ → M (Unit {0})
  unfolding read_block get_word bfree
  free_indirect b j zero = pure tt
  free_indirect b j (suc n) =
      let rest = free_indirect b (j + 1) n in
      (do
        a ← read_block b
        if get_word a (4 * j) == 0 then rest else (do bfree sb (get_word a (4 * j)); rest))

  unfoldable pub itrunc : ℕ → M (Unit {0})
  unfolding get_inode put_inode free_direct free_indirect bfree set_addr iupdate
  itrunc ip = do
    free_direct ip 0 ndirect
    e ← get_inode ip
    if e.addrs ndirect == 0 then pure tt else (do
      free_indirect (e.addrs ndirect) 0 nindirect
      bfree sb (e.addrs ndirect)
      set_addr ip ndirect 0)
    f ← get_inode ip
    put_inode ip (record f { size = 0 })
    iupdate ip

  -- The inode is freed: what iput() does for the last reference without links.
  unfoldable pub free_inode : ℕ → M (Unit {0})
  unfolding get_inode put_inode itrunc iupdate
  free_inode ip = do
    itrunc ip
    e ← get_inode ip
    put_inode ip (record e { kind = 0 })
    iupdate ip
    f ← get_inode ip
    put_inode ip (record f { valid = false })

  -- The caller has a reference, so that `ref` is positive.
  unfoldable pub iput : ℕ → ℕ → M (Unit {0})
  unfolding get_inode put_inode acquire_inode release_inode free_inode
  iput me ip = do
    acquire_inode me ip
    e ← get_inode ip
    if e.valid && e.nlink == 0 && e.ref == 1 then free_inode ip else pure tt
    release_inode me ip
    f ← get_inode ip
    put_inode ip (record f { ref = f.ref - 1 })

  unfoldable pub iunlockput : ℕ → ℕ → M (Unit {0})
  unfolding iunlock iput
  iunlockput me ip = do iunlock me (some ip); iput me ip
