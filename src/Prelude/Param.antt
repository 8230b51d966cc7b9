-- ===== src/Prelude/Param.antt =====
-- The compile-time limits of param.h and the constants of memlayout.h, mmu.h and fs.h.
use Prim.Native.Nat.{ℕ, ◌*◌, ◌^◌}

abbrev pub nproc : ℕ
nproc = 64

abbrev pub nofile : ℕ
nofile = 16

abbrev pub nfile : ℕ
nfile = 100

abbrev pub maxopblocks : ℕ
maxopblocks = 10

abbrev pub logsize : ℕ
logsize = maxopblocks * 3

-- PGSIZE, KERNBASE, PHYSTOP
abbrev pub pgsize : ℕ
pgsize = 4096

abbrev pub kernbase : ℕ
kernbase = 0x80000000

abbrev pub phystop : ℕ
phystop = 0xE000000

-- The modulus of `uint`.
abbrev pub uint_mod : ℕ
uint_mod = 2 ^ 32
