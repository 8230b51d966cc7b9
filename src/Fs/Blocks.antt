-- ===== src/Fs/Blocks.antt =====
-- fs.c: the allocator of disk blocks.
use large_project.Prelude.{
  ℕ, zero, suc, ◌+◌, ◌/◌, ◌%◌, Bool, Option, none, some, ltb, if◌then◌else◌,
}
use large_project.Disk.{update}
use large_project.Fs.Bits.{test_bit, set_bit, clear_bit}
use large_project.Fs.Layout.{Bytes, Super, bpb, bblock, get_word}
use large_project.Fs.State.{M, ◌>>=◌, ◌>>◌, pure, stop, read_block, write_block}

-- bp->data[bi/8] & (1 << (bi % 8))
unfoldable pub in_use : Bytes → ℕ → Bool
unfolding test_bit
in_use d bi = test_bit (d (bi / 8)) (bi % 8)

-- bp->data[bi/8] |= m, and &= ~m
unfoldable pub mark : Bytes → ℕ → Bytes
unfolding set_bit
mark d bi = update d (bi / 8) (set_bit (d (bi / 8)) (bi % 8))

unfoldable pub unmark : Bytes → ℕ → Bytes
unfolding clear_bit
unmark d bi = update d (bi / 8) (clear_bit (d (bi / 8)) (bi % 8))

-- readsb(): the super block is block 1.
unfoldable pub readsb : M Super
unfolding read_block get_word
readsb = do
  d ← read_block 1
  pure (record {
    size = get_word d 0;
    nblocks = get_word d 4;
    ninodes = get_word d 8;
    nlog = get_word d 12;
    logstart = get_word d 16;
    inodestart = get_word d 20;
    bmapstart = get_word d 24;
  })

-- bzero(), whose memset() fills the block
unfoldable pub bzero : ℕ → M (Unit {0})
unfolding read_block write_block
bzero bno = do bp ← read_block bno; write_block bno (λ o. 0)

-- The inner loop of balloc() in the map's block for `b` and up, from bit `bi` on, `n` bits.
unfoldable pub find_clear : Bytes → ℕ → ℕ → ℕ → ℕ → Option ℕ
unfolding in_use
find_clear d size b bi zero = none
find_clear d size b bi (suc n) =
    let rest = find_clear d size b (bi + 1) n in
    if ltb (b + bi) size then if in_use d bi then rest else some bi else none

module _ (sb : Super) where
  -- Bit `bi` of the map's block for `b` is clear: the block is marked and zeroed.
  unfoldable pub take_block : ℕ → ℕ → Bytes → M ℕ
  unfolding mark bzero write_block
  take_block b bi bp = do write_block (bblock b sb) (mark bp bi); bzero (b + bi); pure (b + bi)

  -- The outer loop goes on with the inner loop's result.
  unfoldable pub found_in : ℕ → Bytes → Option ℕ → M ℕ → M ℕ
  found_in b bp (some bi) rest = take_block b bi bp
  found_in b bp none rest = rest

  -- The outer loop of balloc(), from `b` on; the fuel bounds the blocks of the map.
  unfoldable pub balloc_from : ℕ → ℕ → M ℕ
  unfolding read_block
  balloc_from zero b = stop "balloc: out of blocks"
  balloc_from (suc k) b =
      let rest = balloc_from k (b + bpb) in
      if ltb b sb.size
      then (do bp ← read_block (bblock b sb); found_in b bp (find_clear bp sb.size b 0 bpb) rest)
      else stop "balloc: out of blocks"

  unfoldable pub balloc : M ℕ
  unfolding balloc_from
  balloc = balloc_from (sb.size / bpb + 1) 0

  unfoldable pub bfree : ℕ → M (Unit {0})
  unfolding in_use unmark read_block write_block
  bfree b = do
    bp ← read_block (bblock b sb)
    if in_use bp (b % bpb)
        then write_block (bblock b sb) (unmark bp (b % bpb))
        else stop "freeing free block"
