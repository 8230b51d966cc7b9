-- ===== src/Log/Meaning.antt =====
-- The meaning of a disk with a log, and what keeps it.
use large_project.Prelude.{
  ℕ, ◌+◌, ◌<◌, ◌≡◌, sym, ap, ◌∙◌, inl, inr, true, List, [], length, arith, Bool-cases, subst,
}
use large_project.Disk.{Disk}
use large_project.Log.Header.{get_head}
use large_project.Log.Replay.{
  has, Outside, AllOutside, has-Outside, replay, replay_from, Touches, replay_from-cong,
  replay_from_logged, replay_from_unlogged,
}

-- The log on a disk fits its region, and names only blocks outside it.
pub record IsLog (start size : ℕ) (d : Disk) : Type 0 where
  pub fits : length (get_head (d start)) < size
  pub outside : AllOutside start size (get_head (d start))

-- After recovery the disk would hold `want` outside the log.
pub record Means (start size : ℕ) (want d : Disk) : Type 0 where
  pub is_log : IsLog start size d
  pub blocks : (b : ℕ) → Outside start size b → replay start d b ≡ want b

module _ (start size : ℕ) where
  not-has-start : (bs : List ℕ) → 0 < size → AllOutside start size bs → has start bs ≡ true → ⊥
  not-has-start bs pos out h = ground (arith, has-Outside start size start bs out h)

  not-has-entry :
      (bs : List ℕ) (i : ℕ)
      → i + 1 < size
      → AllOutside start size bs
      → has (start + i + 1) bs ≡ true
      → ⊥
  not-has-entry bs i lt out h = ground (arith, has-Outside start size (start + i + 1) bs out h)

  -- A disk that differs from `d` in logged blocks alone has the header and the meaning of `d`.
  pub Touches-start :
      (d d' : Disk) → IsLog start size d → Touches (get_head (d start)) d d' → d' start ≡ d start
  Touches-start d d' v t =
      ground (arith, t start, not-has-start (get_head (d start)) (omega arith) v.outside)

  pub Touches-entry :
      (d d' : Disk) (i : ℕ)
      → IsLog start size d
      → i + 1 < size
      → Touches (get_head (d start)) d d'
      → d' (start + i + 1) ≡ d (start + i + 1)
  Touches-entry d d' i v lt t =
      ground (arith, t (start + i + 1), not-has-entry (get_head (d start)) i lt v.outside)

  pub Touches-replay_from :
      (d d' : Disk) (b : ℕ)
      → IsLog start size d
      → Touches (get_head (d start)) d d'
      → replay_from start d' 0 (get_head (d start)) b (d' b) ≡ replay start d b
  Touches-replay_from d d' b v t =
      replay_from-cong start d' d 0 bs b (d' b) (λ i h. Touches-entry d d' i v (omega arith) t)
      ∙ elim (t b) [
        | inl e ↦ ap (replay_from start d 0 bs b) e
        | inr e ↦ replay_from_logged start d 0 bs b (d' b) (d b) e
      ]
    where
      fits : length (get_head (d start)) < size
      fits = v.fits

      bs : List ℕ
      bs = get_head (d start)

  pub Touches-Means :
      (d d' want : Disk)
      → Means start size want d
      → Touches (get_head (d start)) d d'
      → Means start size want d'
  Touches-Means d d' want v t = record {
    is_log = record {
      fits = subst (λ h. length (get_head h) < size) (sym e) v.is_log.fits;
      outside = subst (λ h. AllOutside start size (get_head h)) (sym e) v.is_log.outside;
    };
    blocks = λ b out.
        ap (λ h. replay_from start d' 0 (get_head h) b (d' b)) e
        ∙ Touches-replay_from d d' b v.is_log t
        ∙ v.blocks b out;
  }
    where
      e : d' start ≡ d start
      e = Touches-start d d' v.is_log t

  -- Where install_trans() has ended, the disk differs in logged blocks alone.
  pub replayed-Touches :
      (d d' : Disk) (bs : List ℕ)
      → ((b : ℕ) → d' b ≡ replay_from start d 0 bs b (d b))
      → Touches bs d d'
  replayed-Touches d d' bs f b = elim (Bool-cases (has b bs)) [
    | inl e ↦ inr e
    | inr e ↦ inl (f b ∙ replay_from_unlogged start d 0 bs b (d b) e)
  ]

  -- An empty log means the blocks as they stand.
  pub cleared-Means :
      (d want : Disk)
      → 0 < size
      → get_head (d start) ≡ []
      → ((b : ℕ) → Outside start size b → d b ≡ want b)
      → Means start size want d
  cleared-Means d want pos e h = record {
    is_log = record { fits = rw e pos; outside = rw e tt };
    blocks = λ b out. rw e (h b out);
  }
