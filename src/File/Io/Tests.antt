-- ===== src/File/Io/Tests.antt =====
-- A write of 4000 bytes, which takes three transactions.
use Prim.Native.Nat.{max}
use large_project.Prelude.{ℕ, ◌+◌, ◌≤◌, ◌≡◌, refl, true, false, ◌&&◌, leb, if◌then◌else◌, arith}
use large_project.Prelude.Int.{ℤ, pos, negsuc}
use large_project.Prelude.Outcome.{ok}
use large_project.File.{File, fd_inode}
use large_project.File.Io.{Below, filewrite}
use large_project.File.Io.Chunks.{HasRoom, filewrite-all}

-- The state is the size of the one inode, and the number of transactions. writei() takes no hole, no
-- byte behind the largest size of a file, and no more than the log has room for.
abbrev writes : ℕ → ℕ → ℕ × ℕ → ℤ × (ℕ × ℕ)
writes off n s =
    if leb off s.0 && leb (off + n) 71680 && leb n 1536
    then (pos n, (max s.0 (off + n), s.1))
    else (negsuc 0, s)

abbrev one_inode : Below
one_inode = record {
  State = ℕ × ℕ;
  piperead = λ p addr n s. (pos n, s);
  pipewrite = λ p addr n s. (pos n, s);
  ilock = λ ip s. s;
  iunlock = λ ip s. s;
  readi = λ ip addr off n s. (pos n, s);
  writei = λ ip addr off n s. writes off n s;
  stati = λ ip st s. s;
  begin_op = λ s. (s.0, s.1 + 1);
  end_op = λ s. s;
}

-- The file has `off` bytes at least.
abbrev Reaches : ℕ → ℕ × ℕ → Type 0
Reaches off s = off ≤ s.0

writes-all :
    (off n : ℕ) (s : ℕ × ℕ)
    → off ≤ s.0
    → n ≤ 1536
    → off + n ≤ 71680
    → ((writes off n s).0 ≡ pos n) × (off + n ≤ (writes off n s).1.0)
writes-all off n s ready small fits =
    let a : leb off s.0 ≡ true = ground arith in
    let b : leb (off + n) 71680 ≡ true = ground arith in
    let c : leb n 1536 ≡ true = ground arith in rw (a, b, c) (refl, omega arith)

one_inode-HasRoom : HasRoom one_inode Reaches 900 71680
one_inode-HasRoom addr off n s ready some_bytes small fits =
    writes-all off n (s.0, s.1 + 1) ready small fits

abbrev log_file : File
log_file = record {
  kind = fd_inode;
  ref = 1;
  readable = false;
  writable = true;
  pipe = 0;
  ip = 900;
  off = 100;
}

filewrite-all_example :
    (s' : ℕ × ℕ) × (filewrite one_inode log_file 0 4000 (100, 0)
      ≡ ok (pos 4000, record log_file { off = 4100 }, s'))
    × Reaches 4100 s'
filewrite-all_example =
    filewrite-all one_inode Reaches 71680 log_file 0 4000 (100, 0) one_inode-HasRoom refl refl
      (omega arith) (omega arith)
