-- ===== src/Log/Header.antt =====
-- The header block of the log: `struct logheader` as words of a block, `n` first.
use large_project.Prelude.{
  ℕ, zero, suc, ◌+◌, ◌^◌, ◌<◌, ◌≡◌, refl, ap, ap₂, ◌∙◌, List, [], ◌∷◌, length, ltb, if◌then◌else◌,
  arith,
}
use large_project.Disk.{Block, update}

-- The loop of write_head() from `i` on: hb->block[i] = log.lh.block[i].
unfoldable pub put_blocks : List ℕ → ℕ → Block → Block
put_blocks [] i hb = hb
put_blocks (b ∷ bs) i hb = put_blocks bs (i + 1) (update hb (1 + i) b)

-- What write_head() stores into the block.
unfoldable pub put_head : List ℕ → Block → Block
unfolding put_blocks
put_head bs hb = put_blocks bs 0 (update hb 0 (length bs))

-- The loop of read_head(), `k` rounds from `i` on.
unfoldable pub get_blocks : Block → ℕ → ℕ → List ℕ
get_blocks hb i zero = []
get_blocks hb i (suc k) = hb (1 + i) ∷ get_blocks hb (i + 1) k

-- `n` is an int: the loop makes no round for a negative one.
unfoldable pub get_head : Block → List ℕ
unfolding get_blocks
get_head hb = get_blocks hb 0 (if ltb (hb 0) (2 ^ 31) then hb 0 else 0)

-- The loop writes only at `1 + i` and above.
put_blocks_below :
    (bs : List ℕ) (i : ℕ) (hb : Block) (j : ℕ) → j < 1 + i → put_blocks bs i hb j ≡ hb j
unfolding put_blocks
put_blocks_below [] i hb j h = refl
put_blocks_below (b ∷ bs) i hb j h =
    put_blocks_below bs (i + 1) (update hb (1 + i) b) j (omega arith) ∙ ground arith

get_blocks-put_blocks :
    (bs : List ℕ) (i : ℕ) (hb : Block) → get_blocks (put_blocks bs i hb) i (length bs) ≡ bs
unfolding put_blocks get_blocks
get_blocks-put_blocks [] i hb = refl
get_blocks-put_blocks (b ∷ bs) i hb =
    ap₂ ◌∷◌ (put_blocks_below bs (i + 1) (update hb (1 + i) b) (1 + i) (omega arith) ∙ ground arith)
      (get_blocks-put_blocks bs (i + 1) (update hb (1 + i) b))

-- What write_head() stores, read_head() loads, if the log has fewer than 2^31 blocks.
pub get_head-put_head :
    (bs : List ℕ) (hb : Block) → length bs < 2 ^ 31 → get_head (put_head bs hb) ≡ bs
unfolding get_head put_head
get_head-put_head bs hb h =
    ap (λ k. get_blocks (put_head bs hb) 0 k) count
    ∙ get_blocks-put_blocks bs 0 (update hb 0 (length bs))
  where
    first : put_head bs hb 0 ≡ length bs
    first = put_blocks_below bs 0 (update hb 0 (length bs)) 0 (omega arith)

    count : (if ltb (put_head bs hb 0) (2 ^ 31) then put_head bs hb 0 else 0) ≡ length bs
    count = ground (arith, first)
