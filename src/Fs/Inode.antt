-- ===== src/Fs/Inode.antt =====
-- fs.c: the table of inodes. A pointer to an inode is its index, and `none` where the code tests for a
-- null pointer. `me` is the process that calls; what a spin lock encloses is one step. There is one
-- device, so that bread() needs no device number.
use large_project.Prelude.{
  ℕ, zero, suc, ◌+◌, ◌*◌, ◌%◌, Bool, true, false, not, ◌&&◌, ◌||◌, Option, none, some, ltb, ◌==◌,
  if◌then◌else◌,
}
use large_project.Disk.{update}
use large_project.Sleeplock.{Sleeplock, initsleeplock, acquiresleep, releasesleep, holdingsleep}
use large_project.Fs.Layout.{Super, Dinode, ipb}
use large_project.Fs.State.{Inode, M, waits, ◌>>=◌, ◌>>◌, pure, stop, get_inode, put_inode}
use large_project.Fs.Blocks.{readsb}

-- NINODE
abbrev pub ninode : ℕ
ninode = 50

-- iinit(): the locks of all entries, and the super block. What it prints is left out.
unfoldable pub init_locks : (ℕ → Inode) → ℕ → Inode
unfolding initsleeplock
init_locks c i = if ltb i ninode then record (c i) { lock = initsleeplock } else c i

unfoldable pub iinit : M Super
unfolding init_locks readsb
iinit w = readsb (record w { icache = init_locks w.icache })

-- What the loop of iget() finds: the entry of the inode, or the first that is free, if any.
pub data Slot : Type 0 where
  cached : ℕ → Slot
  missing : Option ℕ → Slot

-- `empty` in the loop of iget(), after an entry
abbrev pub remember : Option ℕ → ℕ → Inode → Option ℕ
remember none i e = if e.ref == 0 then some i else none
remember (some k) i e = some k

abbrev pub is_inode : ℕ → ℕ → Inode → Bool
is_inode dev inum e = ltb 0 e.ref && e.dev == dev && e.inum == inum

-- The loop of iget() over `n` entries from `i` on.
unfoldable pub find_slot : (ℕ → Inode) → ℕ → ℕ → ℕ → ℕ → Option ℕ → Slot
find_slot c dev inum i zero empty = missing empty
find_slot c dev inum i (suc n) empty =
    let rest = find_slot c dev inum (i + 1) n (remember empty i (c i)) in
    if is_inode dev inum (c i) then cached i else rest

abbrev pub recycled : Inode → ℕ → ℕ → Inode
recycled e dev inum = record e { dev = dev; inum = inum; ref = 1; valid = false }

-- iget() after its loop
unfoldable pub take_entry : ℕ → ℕ → Slot → M ℕ
unfolding put_inode get_inode
take_entry dev inum (cached ip) = do
  e ← get_inode ip
  put_inode ip (record e { ref = e.ref + 1 })
  pure ip
take_entry dev inum (missing none) = stop "iget: no inodes"
take_entry dev inum (missing (some ip)) = do
  e ← get_inode ip
  put_inode ip (recycled e dev inum)
  pure ip

unfoldable pub iget : ℕ → ℕ → M ℕ
unfolding find_slot take_entry
iget dev inum w = take_entry dev inum (find_slot w.icache dev inum 0 ninode none) w

unfoldable pub idup : ℕ → M ℕ
unfolding get_inode put_inode
idup ip = do e ← get_inode ip; put_inode ip (record e { ref = e.ref + 1 }); pure ip

-- acquiresleep() of one of the locks: the call goes on once it has the lock.
unfoldable pub take_lock : ℕ → Sleeplock × Bool → (Sleeplock → Inode) → M (Unit {0})
unfolding put_inode
take_lock ip (lk, true) put = put_inode ip (put lk)
take_lock ip (lk, false) put = λ w. waits ip (record w { icache = update w.icache ip (put lk) })

module _ (me : ℕ) where
  -- The locks of struct inode.
  unfoldable pub acquire_inode : ℕ → M (Unit {0})
  unfolding get_inode take_lock acquiresleep
  acquire_inode ip = do
    e ← get_inode ip
    take_lock ip (acquiresleep me e.lock) (λ lk. record e { lock = lk })

  unfoldable pub release_inode : ℕ → M (Unit {0})
  unfolding get_inode put_inode releasesleep
  release_inode ip = do e ← get_inode ip; put_inode ip (record e { lock = releasesleep e.lock })

  unfoldable pub fsemaphore_lock : Option ℕ → M (Unit {0})
  unfolding get_inode take_lock acquiresleep
  fsemaphore_lock none = stop "flock"
  fsemaphore_lock (some ip) = do
    e ← get_inode ip
    if ltb e.ref 1
        then stop "flock"
        else take_lock ip (acquiresleep me e.flock) (λ lk. record e { flock = lk })

  unfoldable pub fsemaphore_unlock : Option ℕ → M (Unit {0})
  unfolding get_inode put_inode holdingsleep releasesleep
  fsemaphore_unlock none = stop "funlock"
  fsemaphore_unlock (some ip) = do
    e ← get_inode ip
    if not (holdingsleep me e.flock) || ltb e.ref 1
        then stop "funlock"
        else put_inode ip (record e { flock = releasesleep e.flock })

  unfoldable pub iunlock : Option ℕ → M (Unit {0})
  unfolding get_inode holdingsleep release_inode
  iunlock none = stop "iunlock"
  iunlock (some ip) = do
    e ← get_inode ip
    if not (holdingsleep me e.lock) || ltb e.ref 1 then stop "iunlock" else release_inode ip

-- The inode of the disk that an entry holds.
abbrev pub on_disk : Inode → Dinode
on_disk e = record {
  kind = e.kind;
  major = e.major;
  minor = e.minor;
  nlink = e.nlink;
  size = e.size;
  addrs = e.addrs;
}

-- ilock() copies the fields of the inode on the disk.
abbrev pub load : Inode → Dinode → Inode
load e d = record e {
  valid = true;
  kind = d.kind;
  major = d.major;
  minor = d.minor;
  nlink = d.nlink;
  size = d.size;
  addrs = d.addrs;
}

-- The byte of inode `inum` in its block.
abbrev pub ioffset : ℕ → ℕ
ioffset inum = inum % ipb * 64
