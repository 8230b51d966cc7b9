-- ===== src/Bio.antt =====
-- bio.c: which buffer holds which block. The list `bcache.head` is a list of buffers, the most recently
-- used one first; a buffer is named by its index in `bcache.buf`. What `bcache.lock` encloses is one
-- step. The sleep locks of the buffers and their data are left out here.
pub mod Unique
mod Tests
use large_project.Prelude.{
  ℕ, zero, suc, ◌+◌, ◌-◌, Bool, true, false, not, ◌&&◌, List, [], ◌∷◌, ◌++◌, Option, none, some,
  ◌==◌, if◌then◌else◌,
}
use large_project.Prelude.Outcome.{Outcome, ok, panic}

-- `flags` as its bits B_VALID and B_DIRTY.
pub record Buf : Type 0 where
  pub id : ℕ
  pub valid : Bool
  pub dirty : Bool
  pub dev : ℕ
  pub blockno : ℕ
  pub refcnt : ℕ

-- The loop of binit() over the buffers from index `i` on: each goes to the front.
unfoldable pub binit_from : ℕ → ℕ → List Buf → List Buf
binit_from i zero bs = bs
binit_from i (suc n) bs =
    binit_from (i + 1) n
      (record { id = i; valid = false; dirty = false; dev = 0; blockno = 0; refcnt = 0 } ∷ bs)

abbrev pub holds : ℕ → ℕ → Buf → Bool
holds dev blockno b = b.dev == dev && b.blockno == blockno

unfoldable pub behind : Buf → Option (ℕ × List Buf) → Option (ℕ × List Buf)
behind b none = none
behind b (some (i, bs)) = some (i, b ∷ bs)

-- The first loop of bget().
unfoldable pub find_cached : ℕ → ℕ → List Buf → Option (ℕ × List Buf)
unfolding behind
find_cached dev blockno [] = none
find_cached dev blockno (b ∷ bs) =
    let rest = find_cached dev blockno bs in
    if holds dev blockno b
    then some (b.id, record b { refcnt = b.refcnt + 1 } ∷ bs)
    else behind b rest

-- A buffer that is given to another block.
abbrev pub assign : ℕ → ℕ → Buf → Buf
assign dev blockno b = record b {
  valid = false;
  dirty = false;
  dev = dev;
  blockno = blockno;
  refcnt = 1;
}

-- The turn of the second loop at `b`, which it reaches if it found nothing behind.
unfoldable pub take_or : ℕ → ℕ → Buf → List Buf → Option (ℕ × List Buf) → Option (ℕ × List Buf)
take_or dev blockno b bs (some (i, bs')) = some (i, b ∷ bs')
take_or dev blockno b bs none =
    if b.refcnt == 0 && not b.dirty then some (b.id, assign dev blockno b ∷ bs) else none

-- The second loop of bget(), which goes from the end of the list to its front.
unfoldable pub recycle : ℕ → ℕ → List Buf → Option (ℕ × List Buf)
unfolding take_or
recycle dev blockno [] = none
recycle dev blockno (b ∷ bs) = take_or dev blockno b bs (recycle dev blockno bs)

unfoldable pub or_panic : Option (ℕ × List Buf) → Outcome (ℕ × List Buf)
or_panic (some r) = ok r
or_panic none = panic "bget: no buffers"

unfoldable pub or_recycle : ℕ → ℕ → List Buf → Option (ℕ × List Buf) → Outcome (ℕ × List Buf)
unfolding recycle or_panic
or_recycle dev blockno bs (some r) = ok r
or_recycle dev blockno bs none = or_panic (recycle dev blockno bs)

-- bget() up to its acquiresleep(): the buffer and the list.
unfoldable pub bget : ℕ → ℕ → List Buf → Outcome (ℕ × List Buf)
unfolding find_cached or_recycle
bget dev blockno bs = or_recycle dev blockno bs (find_cached dev blockno bs)

-- brelse() behind its releasesleep(), with the buffers that it has passed in `front`.
unfoldable pub brelse_from : ℕ → List Buf → List Buf → List Buf
brelse_from i front [] = front
brelse_from i front (b ∷ bs) =
    let rest = brelse_from i (front ++ (b ∷ [])) bs in
    let b' = record b { refcnt = b.refcnt - 1 } in
    if b.id == i then if b'.refcnt == 0 then b' ∷ front ++ bs else front ++ (b' ∷ bs) else rest

unfoldable pub brelse : ℕ → List Buf → List Buf
unfolding brelse_from
brelse i bs = brelse_from i [] bs
