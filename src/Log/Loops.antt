-- ===== src/Log/Loops.antt =====
-- What the loops of write_log() and install_trans() do to the disk, crashes included.
use large_project.Prelude.{
  ℕ, ◌+◌, ◌≤◌, ◌<◌, ◌≡◌, refl, ap, ◌∙◌, ◌⊎◌, inl, List, [], ◌∷◌, length, arith,
}
use large_project.Disk.{Disk, Machine, bread, written}
use large_project.Disk.Triple.{Holds, Holds-mono, bwrite-bind-Holds}
use large_project.Log.{install_from, write_from}
use large_project.Log.Replay.{Outside, AllOutside, replay_from, Touches, replay_from-cong, Holding}

-- Two disks differ at most in the entries of the log: neither in its header nor outside it.
abbrev pub LogOnly : ℕ → ℕ → Disk → Disk → Type 0
LogOnly start size d d' = (b : ℕ) → (b ≤ start) ⊎ (start + size ≤ b) → d' b ≡ d b

-- The first `n` log entries stand in the cache as on the disk.
abbrev pub Coherent : ℕ → ℕ → Machine → Type 0
Coherent start n m = (i : ℕ) → i < n → m.cache (start + i + 1) ≡ m.disk (start + i + 1)

-- What write_log() has done when its loop ends.
pub record Wrote (start size : ℕ) (c : Disk) (tail : ℕ) (bs : List ℕ) (m m' : Machine)
    : Type 0 where
  pub entries : LogOnly start size m.disk m'.disk
  pub homes : (b : ℕ) → Outside start size b → m'.cache b ≡ c b
  pub holding : Holding start m'.disk c tail bs
  pub earlier : (i : ℕ) → i < tail → m'.disk (start + i + 1) ≡ m.disk (start + i + 1)
  pub coherent : Coherent start (tail + length bs) m'

module _ (start size : ℕ) where
  -- One round of write_log() before the others.
  Wrote-cons :
      (c : Disk) (tail x : ℕ) (xs : List ℕ) (m m' : Machine) (k : ℕ)
      → tail + length (x ∷ xs) < size
      → m.cache x ≡ c x
      → Wrote start size c (tail + 1) xs (written m (start + tail + 1) (m.cache x) k) m'
      → Wrote start size c tail (x ∷ xs) m m'
  Wrote-cons c tail x xs m m' k room e w = record {
    entries = λ b h. w.entries b h ∙ ground arith;
    homes = w.homes;
    holding = (w.earlier tail (omega arith) ∙ ground (arith, e), w.holding);
    earlier = λ i h. w.earlier i (omega arith) ∙ ground arith;
    coherent = λ i h. w.coherent i (omega arith);
  }

  -- The loop of write_log() copies the cached blocks into the log entries; a crash inside it has
  -- changed nothing but entries.
  pub write_from_lem :
      (c : Disk) (tail : ℕ) (bs : List ℕ) (m : Machine)
      → AllOutside start size bs
      → tail + length bs < size
      → ((b : ℕ) → Outside start size b → m.cache b ≡ c b)
      → Coherent start tail m
      → Holds
          (write_from start tail bs m)
          (LogOnly start size m.disk)
          (λ _ m'. Wrote start size c tail bs m m')
  unfolding write_from bread
  write_from_lem c tail [] m out room homes coh = record {
    entries = λ b h. refl;
    homes = homes;
    holding = tt;
    earlier = λ i h. refl;
    coherent = λ i h. coh i (omega arith);
  }
  write_from_lem c tail (x ∷ xs) m out room homes coh =
      bwrite-bind-Holds (start + tail + 1) (m.cache x) m (λ _. write_from start (tail + 1) xs)
        (LogOnly start size m.disk) (λ _ m'. Wrote start size c tail (x ∷ xs) m m') (λ b h. refl)
        (λ k e.
          let m1 : Machine = written m (start + tail + 1) (m.cache x) k in
          Holds-mono (write_from start (tail + 1) xs m1) (LogOnly start size m1.disk)
            (LogOnly start size m.disk) (λ _ m'. Wrote start size c (tail + 1) xs m1 m')
            (λ _ m'. Wrote start size c tail (x ∷ xs) m m') (λ d f b h. f b h ∙ ground arith)
            (λ _ m'. Wrote-cons c tail x xs m m' k room (homes x out.0))
            (write_from_lem c (tail + 1) xs m1 out.1 (omega arith)
              (λ b h. ground (arith, homes b h)) (λ i h. ground (arith, coh i))))

  -- The loop of install_trans() gives every home what the replay of the entries says; a crash
  -- inside it has changed nothing but homes.
  pub install_from_lem :
      (tail : ℕ) (bs : List ℕ) (m : Machine)
      → AllOutside start size bs
      → tail + length bs < size
      → Coherent start (tail + length bs) m
      → Holds
          (install_from start tail bs m)
          (Touches bs m.disk)
          (λ _ m'. (b : ℕ) → m'.disk b ≡ replay_from start m.disk tail bs b (m.disk b))
  unfolding install_from bread
  install_from_lem tail [] m out room coh = λ b. refl
  install_from_lem tail (x ∷ xs) m out room coh =
      bwrite-bind-Holds x (m.cache (start + tail + 1)) m (λ _. install_from start (tail + 1) xs)
        (Touches (x ∷ xs) m.disk)
        (λ _ m'. (b : ℕ) → m'.disk b ≡ replay_from start m.disk tail (x ∷ xs) b (m.disk b))
        (λ b. inl refl)
        (λ k e.
          let m1 : Machine = written m x (m.cache (start + tail + 1)) k in
          Holds-mono (install_from start (tail + 1) xs m1) (Touches xs m1.disk)
            (Touches (x ∷ xs) m.disk)
            (λ _ m'. (b : ℕ) → m'.disk b ≡ replay_from start m1.disk (tail + 1) xs b (m1.disk b))
            (λ _ m'. (b : ℕ) → m'.disk b ≡ replay_from start m.disk tail (x ∷ xs) b (m.disk b))
            (λ d f b. ground (arith, f b))
            (λ _ m' f b.
              f b
              ∙ replay_from-cong start m1.disk m.disk (tail + 1) xs b (m1.disk b)
                  (λ i h. ground arith)
              ∙ ap (replay_from start m.disk (tail + 1) xs b)
                  (ground (arith, coh tail (omega arith))))
            (install_from_lem (tail + 1) xs m1 out.1 (omega arith) (λ i h. ground (arith, coh i))))
