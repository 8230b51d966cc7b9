-- ===== src/Fs/Tests.antt =====
-- The file system's theorems on a small disk.
use large_project.Prelude.{
  ℕ, ◌≡◌, refl, subst, true, false, none, List, [], ◌∷◌, ltb, ◌==◌, if◌then◌else◌, arith,
}
use large_project.Sleeplock.{initsleeplock}
use large_project.Fs.Blocks.{balloc, in_use}
use large_project.Fs.Layout.{Super, bblock}
use large_project.Fs.State.{Inode, World, ◌>>=◌}
use large_project.Fs.Bitmap.{in_map, MapInUse, Allocates, balloc-Allocates}
use large_project.Fs.Bits.{test_bit}
use large_project.Fs.Inode.{iget}
use large_project.Fs.Update.{bmap, iupdate}
use large_project.Fs.Cache.{Unique, Gets, iget-Gets}
use large_project.Fs.Stable.{Usable, Maps, bmap-Maps}
use large_project.Fs.Inodes.{Updates, iupdate-load}
use large_project.Fs.Content.{Devsw, readi}
use large_project.Fs.Reads.{Fuelled, ReadsFile, readi-Reads}
use large_project.File.{File, fd_inode}
use large_project.Fs.Semaphore.{
  accepted, refused, sleeping, Call, lock, unlock, sem_calls, sem_of, file_calls, Simulates,
  file_calls-Simulates,
}
use large_project.Fs.Path.{namex}
use large_project.Fs.Follow.{start, follow}
use large_project.Fs.Walk.{names, namex-follow}

abbrev small : Super
small = record {
  size = 100;
  nblocks = 41;
  ninodes = 16;
  nlog = 30;
  logstart = 2;
  inodestart = 32;
  bmapstart = 58;
}

-- Entry 3 is the root directory, entry 4 a copy that is not loaded, and no other entry is in use.
abbrev root : Inode
root = record {
  dev = 1;
  inum = 1;
  ref = 1;
  flock = initsleeplock;
  lock = initsleeplock;
  valid = true;
  kind = 1;
  major = 0;
  minor = 0;
  nlink = 1;
  size = 512;
  addrs = λ i. if i == 0 then 60 else 0;
}

abbrev unused : Inode
unused = record root { ref = 0; valid = false }

-- Blocks 0 to 63 are in use.
abbrev disk : World
disk = record {
  blocks = λ b o. if b == 58 then (if ltb o 8 then 255 else 0) else 0;
  logged = [];
  icache = λ i. if i == 3 then root else unused;
}

disk-MapInUse : MapInUse small disk
unfolding in_use test_bit
disk-MapInUse c lt =
    let e : 58 ≡ bblock c small = omega arith in
    (omega arith, subst (λ b. in_map small disk b ≡ true) e refl)

balloc-Allocates_example : Allocates small disk (balloc small disk)
balloc-Allocates_example = balloc-Allocates small disk disk-MapInUse

disk-Unique : Unique disk.icache
disk-Unique i j li lj ri rj d n = ground arith

iget-Gets_example : Gets 1 5 disk (iget 1 5 disk)
iget-Gets_example = iget-Gets 1 5 disk disk-Unique

disk-Usable : Usable small disk
unfolding in_use test_bit
disk-Usable = (disk-MapInUse, refl, omega arith)

bmap-Maps_example : Maps small 3 20 disk (bmap small 3 20 disk)
bmap-Maps_example = bmap-Maps small 3 20 disk disk-Usable (omega arith)

iupdate-load_example : Updates small disk 3 4 (iupdate small 3 disk)
iupdate-load_example =
    iupdate-load small disk 3 4
      (omega arith, omega arith, omega arith, omega arith, omega arith, λ j l. ground arith) refl
      refl (λ e. absurd (omega arith))

-- No driver
abbrev no_driver : ℕ → Devsw
no_driver major = record { read = none; write = none }

-- "/a//b"
abbrev path : List ℕ
path = 47 ∷ 97 ∷ 47 ∷ 47 ∷ 98 ∷ []

names-path : names path ≡ (97 ∷ []) ∷ (98 ∷ []) ∷ []
names-path = refl

namex-follow_example :
    namex small no_driver 7 3 path true
    ≡ (start small no_driver 7 3 path >>= λ ip. follow small no_driver 7 true ip [] (names path))
namex-follow_example = namex-follow small no_driver 7 3 path true

readi-Reads_example :
    Fuelled (ReadsFile small no_driver root 500 100) (readi small no_driver 3 500 100 disk)
readi-Reads_example =
    readi-Reads small no_driver 3 500 100 disk (λ e. absurd (omega arith)) (omega arith)
      (omega arith) (omega arith)

-- An open file that refers to entry 3.
abbrev open_root : File
open_root = record {
  kind = fd_inode;
  ref = 1;
  readable = true;
  writable = false;
  pipe = 0;
  ip = 4;
  off = 0;
}

-- Process 7 takes the lock, 8 asks for it and cannot give it back, 7 gives it back, and 8 takes it.
abbrev calls : List Call
calls = lock 7 ∷ lock 8 ∷ unlock 8 ∷ unlock 7 ∷ lock 8 ∷ []

calls_results :
    (sem_calls calls (sem_of initsleeplock)).0
    ≡ accepted ∷ sleeping ∷ refused ∷ accepted ∷ accepted ∷ []
unfolding initsleeplock
calls_results = refl

file_calls-Simulates_example :
    Simulates 3 disk (sem_calls calls (sem_of initsleeplock)) (file_calls open_root calls disk)
file_calls-Simulates_example = file_calls-Simulates calls 3 open_root disk refl (omega arith)
