-- ===== src/Log/Replay.antt =====
-- What a disk holds once its log has been installed.
use large_project.Prelude.{
  ℕ, ◌+◌, ◌≤◌, ◌<◌, ◌≡◌, refl, ap, ◌∙◌, ◌⊎◌, inl, inr, Bool, true, false, List, [], ◌∷◌, length,
  ◌==◌, if◌then◌else◌, arith, Bool-cases,
}
use large_project.Disk.{Block, Disk}
use large_project.Log.Header.{get_head}

-- Is block `b` among the logged ones?
abbrev pub has : ℕ → List ℕ → Bool
has b [] = false
has b (x ∷ xs) = if x == b then true else has b xs

-- Block `b` is outside the `size` blocks of the log, which begin at `start`.
abbrev pub Outside : ℕ → ℕ → ℕ → Type 0
Outside start size b = (b < start) ⊎ (start + size ≤ b)

abbrev pub AllOutside : ℕ → ℕ → List ℕ → Type 0
AllOutside start size [] = Unit
AllOutside start size (x ∷ xs) = Outside start size x × AllOutside start size xs

-- Block `b` after the log entries `bs`, at positions `tail` and up, have been copied to their homes
-- over `v`.
abbrev pub replay_from : ℕ → Disk → ℕ → List ℕ → ℕ → Block → Block
replay_from start d tail [] b v = v
replay_from start d tail (x ∷ xs) b v =
    replay_from start d (tail + 1) xs b (if x == b then d (start + tail + 1) else v)

-- The meaning of a disk: its blocks with the committed transaction in place.
abbrev pub replay : ℕ → Disk → Disk
replay start d b = replay_from start d 0 (get_head (d start)) b (d b)

-- A disk differs from another at most in the listed blocks.
abbrev pub Touches : List ℕ → Disk → Disk → Type 0
Touches bs d d' = (b : ℕ) → (d' b ≡ d b) ⊎ (has b bs ≡ true)

pub has-Outside :
    (start size b : ℕ) (bs : List ℕ)
    → AllOutside start size bs
    → has b bs ≡ true
    → Outside start size b
has-Outside start size b [] h e = absurd (false-true e)
  where
    false-true : false ≡ true → ⊥
    false-true p = cc
has-Outside start size b (x ∷ xs) h e = ground (arith, has-Outside start size b xs h.1)

-- A replay reads the log's own blocks, and nothing else of the disk.
pub replay_from-cong :
    (start : ℕ) (d d' : Disk) (tail : ℕ) (bs : List ℕ) (b : ℕ) (v : Block)
    → ((i : ℕ) → i < tail + length bs → d (start + i + 1) ≡ d' (start + i + 1))
    → replay_from start d tail bs b v ≡ replay_from start d' tail bs b v
replay_from-cong start d d' tail [] b v h = refl
replay_from-cong start d d' tail (x ∷ xs) b v h =
    ap (λ w. replay_from start d (tail + 1) xs b (if x == b then w else v)) (h tail (omega arith))
    ∙ replay_from-cong start d d' (tail + 1) xs b (if x == b then d' (start + tail + 1) else v)
        (λ i lt. h i (omega arith))

-- A logged block does not depend on what stood in its home.
pub replay_from_logged :
    (start : ℕ) (d : Disk) (tail : ℕ) (bs : List ℕ) (b : ℕ) (v w : Block)
    → has b bs ≡ true
    → replay_from start d tail bs b v ≡ replay_from start d tail bs b w
replay_from_logged start d tail [] b v w h = cc
replay_from_logged start d tail (x ∷ xs) b v w h = elim (Bool-cases (x == b)) [
  | inl e ↦ rw e
  | inr e ↦ rw e (replay_from_logged start d (tail + 1) xs b v w (rw e at h))
]

-- A block that is not logged stays.
pub replay_from_unlogged :
    (start : ℕ) (d : Disk) (tail : ℕ) (bs : List ℕ) (b : ℕ) (v : Block)
    → has b bs ≡ false
    → replay_from start d tail bs b v ≡ v
replay_from_unlogged start d tail [] b v h = refl
replay_from_unlogged start d tail (x ∷ xs) b v h = elim (Bool-cases (x == b)) [
  | inl e ↦ absurd (true-false (rw e at h))
  | inr e ↦ rw e (replay_from_unlogged start d (tail + 1) xs b v (rw e at h))
]
  where
    true-false : true ≡ false → ⊥
    true-false p = cc

-- The log entries `bs`, at positions `tail` and up, hold what `new` says of their homes.
abbrev pub Holding : ℕ → Disk → Disk → ℕ → List ℕ → Type 0
Holding start d new tail [] = Unit
Holding start d new tail (x ∷ xs) =
    (d (start + tail + 1) ≡ new x) × Holding start d new (tail + 1) xs

-- Where every entry of the log holds `new`, a replay gives `new` of the logged blocks.
pub replay_from_new :
    (start : ℕ) (d new : Disk) (tail : ℕ) (bs : List ℕ) (b : ℕ) (v : Block)
    → Holding start d new tail bs
    → (has b bs ≡ true) ⊎ (v ≡ new b)
    → replay_from start d tail bs b v ≡ new b
replay_from_new start d new tail [] b v h (inl e) = cc
replay_from_new start d new tail [] b v h (inr e) = e
replay_from_new start d new tail (x ∷ xs) b v h e = elim (Bool-cases (x == b)) [
  | inl q ↦ rw q (
      replay_from_new start d new (tail + 1) xs b (d (start + tail + 1)) h.1
        (inr (h.0 ∙ ap new (ground (arith, q)))))
  | inr q ↦ rw q (replay_from_new start d new (tail + 1) xs b v h.1 (rw (q) at e))
]
