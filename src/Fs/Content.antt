-- ===== src/Fs/Content.antt =====
-- fs.c: the bytes of a file.
use large_project.Prelude.{
  ℕ, zero, suc, ◌+◌, ◌-◌, ◌*◌, ◌/◌, ◌%◌, ◌||◌, ◌&&◌, Option, none, some, List, [], ◌∷◌, ◌++◌, min,
  ltb, leb, ◌==◌, if◌then◌else◌,
}
use large_project.Prelude.Param.{uint_mod}
use large_project.Disk.{update}
use large_project.Fs.Layout.{Bytes, Super, bsize, maxfile}
use large_project.Fs.State.{
  Inode, M, ◌>>=◌, ◌>>◌, pure, stop, read_block, write_block, get_inode, put_inode,
}
use large_project.Fs.Update.{bmap, iupdate}

-- struct stat
pub record Stat : Type 0 where
  pub dev : ℕ
  pub ino : ℕ
  pub type : ℕ
  pub nlink : ℕ
  pub size : ℕ

unfoldable pub stati : Inode → Stat
stati ip = record { dev = ip.dev; ino = ip.inum; type = ip.kind; nlink = ip.nlink; size = ip.size }

-- T_DIR and T_DEV
abbrev pub t_dir : ℕ
t_dir = 1

abbrev pub t_dev : ℕ
t_dev = 3

abbrev pub ndev : ℕ
ndev = 10

-- An entry of `devsw` for the driver of a device: what it reads, and what becomes of what is written.
-- `none` is the result -1.
pub record Devsw : Type 0 where
  pub read : Option (ℕ → ℕ → M (Option (List ℕ)))
  pub write : Option (ℕ → List ℕ → M (Option ℕ))

-- memmove() of `m` bytes out of a block and into it.
unfoldable pub take_bytes : Bytes → ℕ → ℕ → List ℕ
take_bytes d o zero = []
take_bytes d o (suc m) = d o ∷ take_bytes d (o + 1) m

unfoldable pub put_bytes : Bytes → ℕ → ℕ → List ℕ → Bytes
put_bytes d o zero src = d
put_bytes d o (suc m) [] = d
put_bytes d o (suc m) (x ∷ src) = put_bytes (update d o x) (o + 1) m src

unfoldable pub drop_bytes : ℕ → List ℕ → List ℕ
drop_bytes zero src = src
drop_bytes (suc m) [] = []
drop_bytes (suc m) (x ∷ src) = drop_bytes m src

unfoldable pub byte_count : List ℕ → ℕ
byte_count [] = 0
byte_count (x ∷ xs) = suc (byte_count xs)

-- `m` in the loops of readi() and writei(), with `left` bytes to go
abbrev pub piece : ℕ → ℕ → ℕ
piece off left = min left (bsize - off % bsize)

module _ (sb : Super) (devsw : ℕ → Devsw) where
  -- The loop of readi(); every turn moves a byte at least, so that `left` is fuel enough.
  unfoldable pub read_bytes : ℕ → ℕ → ℕ → ℕ → M (List ℕ)
  unfolding read_block bmap take_bytes
  read_bytes fuel ip off zero = pure []
  read_bytes zero ip off (suc l) = stop "fuel"
  read_bytes (suc fuel) ip off (suc l) =
      let m = piece off (suc l) in
      (do
        b ← bmap sb ip (off / bsize)
        bp ← read_block b
        more ← read_bytes fuel ip (off + m) (suc l - m)
        pure (take_bytes bp (off % bsize) m ++ more))

  -- The driver of a device: a negative `major` is at least NDEV as an unsigned number.
  unfoldable pub read_dev : Option (ℕ → ℕ → M (Option (List ℕ))) → ℕ → ℕ → M (Option (List ℕ))
  read_dev none ip n = pure none
  read_dev (some read) ip n = read ip n

  -- The bytes at `dst`, and their number; `none` is -1.
  unfoldable pub readi : ℕ → ℕ → ℕ → M (Option (List ℕ))
  unfolding get_inode read_bytes read_dev
  readi ip off n = do
    e ← get_inode ip
    if e.kind == t_dev
        then (if leb ndev e.major then pure none else read_dev (devsw e.major).read ip n)
        else (if ltb e.size off || ltb ((off + n) % uint_mod) off then pure none else (do
          let l =
              if ltb e.size ((off + n) % uint_mod) then (e.size + uint_mod - off) % uint_mod else n
          bytes ← read_bytes l ip off l
          pure (some bytes)))

  -- The loop of writei(): the bytes `src`, of which `left` are to go.
  unfoldable pub write_bytes : ℕ → ℕ → List ℕ → ℕ → ℕ → M (Unit {0})
  unfolding read_block write_block bmap put_bytes drop_bytes
  write_bytes fuel ip src off zero = pure tt
  write_bytes zero ip src off (suc l) = stop "fuel"
  write_bytes (suc fuel) ip src off (suc l) =
      let m = piece off (suc l) in
      (do
        b ← bmap sb ip (off / bsize)
        bp ← read_block b
        write_block b (put_bytes bp (off % bsize) m src)
        write_bytes fuel ip (drop_bytes m src) (off + m) (suc l - m))

  unfoldable pub write_dev : Option (ℕ → List ℕ → M (Option ℕ)) → ℕ → List ℕ → M (Option ℕ)
  write_dev none ip src = pure none
  write_dev (some write) ip src = write ip src

  -- writei() of all of `src`
  unfoldable pub writei : ℕ → List ℕ → ℕ → M (Option ℕ)
  unfolding get_inode put_inode write_bytes write_dev byte_count iupdate
  writei ip src off = do
    let n = byte_count src
    e ← get_inode ip
    if e.kind == t_dev
        then (if leb ndev e.major then pure none else write_dev (devsw e.major).write ip src)
        else (if ltb e.size off
              || ltb ((off + n) % uint_mod) off
              || ltb (maxfile * bsize) ((off + n) % uint_mod)
            then pure none
            else (do
              write_bytes n ip src off n
              f ← get_inode ip
              if ltb 0 n && ltb f.size (off + n)
                  then (do put_inode ip (record f { size = off + n }); iupdate sb ip)
                  else pure tt
              pure (some n)))
