-- ===== src/Fs/Layout.antt =====
-- The layout of a block: little-endian numbers at byte offsets, and the records of fs.h.
use large_project.Prelude.{ℕ, zero, suc, ◌+◌, ◌*◌, ◌/◌, ◌%◌}
use large_project.Disk.{update}

-- The bytes of a block, `bp->data`.
abbrev pub Bytes : Type 0
Bytes = ℕ → ℕ

-- BSIZE, and the blocks' contents in bits, words and inodes
abbrev pub bsize : ℕ
bsize = 512

-- BPB
abbrev pub bpb : ℕ
bpb = bsize * 8

abbrev pub ndirect : ℕ
ndirect = 12

abbrev pub nindirect : ℕ
nindirect = bsize / 4

abbrev pub maxfile : ℕ
maxfile = ndirect + nindirect

-- IPB, with sizeof(struct dinode) == 64
abbrev pub ipb : ℕ
ipb = bsize / 64

abbrev pub dirsiz : ℕ
dirsiz = 14

-- struct superblock
pub record Super : Type 0 where
  pub size : ℕ
  pub nblocks : ℕ
  pub ninodes : ℕ
  pub nlog : ℕ
  pub logstart : ℕ
  pub inodestart : ℕ
  pub bmapstart : ℕ

-- IBLOCK and BBLOCK
abbrev pub iblock : ℕ → Super → ℕ
iblock i sb = i / ipb + sb.inodestart

abbrev pub bblock : ℕ → Super → ℕ
bblock b sb = b / bpb + sb.bmapstart

-- A `short` and a `uint` at byte `o`.
unfoldable pub get_short : Bytes → ℕ → ℕ
get_short d o = d o + 256 * d (o + 1)

unfoldable pub put_short : Bytes → ℕ → ℕ → Bytes
put_short d o v = update (update d o (v % 256)) (o + 1) (v / 256 % 256)

unfoldable pub get_word : Bytes → ℕ → ℕ
get_word d o = d o + 256 * d (o + 1) + 65536 * d (o + 2) + 16777216 * d (o + 3)

unfoldable pub put_word : Bytes → ℕ → ℕ → Bytes
put_word d o v =
    update
      (update (update (update d o (v % 256)) (o + 1) (v / 256 % 256)) (o + 2) (v / 65536 % 256))
      (o + 3) (v / 16777216 % 256)

-- struct dinode; `addrs` has NDIRECT + 1 entries.
pub record Dinode : Type 0 where
  pub kind : ℕ
  pub major : ℕ
  pub minor : ℕ
  pub nlink : ℕ
  pub size : ℕ
  pub addrs : ℕ → ℕ

-- The inode that begins at byte `o`.
unfoldable pub get_dinode : Bytes → ℕ → Dinode
unfolding get_short get_word
get_dinode d o = record {
  kind = get_short d o;
  major = get_short d (o + 2);
  minor = get_short d (o + 4);
  nlink = get_short d (o + 6);
  size = get_word d (o + 8);
  addrs = λ i. get_word d (o + 12 + 4 * i);
}

-- memmove() of the first `n` of the words `f` to byte `o`.
unfoldable pub put_words : Bytes → ℕ → (ℕ → ℕ) → ℕ → Bytes
unfolding put_word
put_words d o f zero = d
put_words d o f (suc n) = put_word (put_words d o f n) (o + 4 * n) (f n)

-- The stores of iupdate()
unfoldable pub put_dinode : Bytes → ℕ → Dinode → Bytes
unfolding put_short put_word put_words
put_dinode d o i =
    put_words
      (put_word
        (put_short (put_short (put_short (put_short d o i.kind) (o + 2) i.major) (o + 4) i.minor)
          (o + 6) i.nlink)
        (o + 8) i.size)
      (o + 12) i.addrs (ndirect + 1)
