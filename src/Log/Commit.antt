-- ===== src/Log/Commit.antt =====
-- commit(): all of a transaction or nothing of it, wherever the power fails.
use large_project.Prelude.{
  ℕ, ◌+◌, ◌≤◌, ◌<◌, ◌≡◌, refl, ap, ◌∙◌, ◌⊎◌, inl, inr, List, [], ◌∷◌, length, if◌then◌else◌, arith,
  Bool-cases, lt→ltb,
}
use large_project.Prelude.Param.{logsize}
use large_project.Disk.{Block, Disk, Machine, update, bread, written, pure, M, ◌>>◌}
use large_project.Disk.Triple.{Holds, Holds-mono, Holds-bind, bwrite-bind-Holds}
use large_project.Log.{Log, write_from, write_head, install_trans, write_log, commit}
use large_project.Log.Header.{put_head, get_head, get_head-put_head}
use large_project.Log.Replay.{
  has, Outside, AllOutside, replay_from, Holding, replay_from_unlogged, replay_from_new,
}
use large_project.Log.Meaning.{Means, cleared-Means}
use large_project.Log.Loops.{LogOnly, Wrote, write_from_lem}
use large_project.Log.Recover.{Clean, install-Holds}

-- A log that end_op() may commit, over a disk whose own log is empty.
pub record Ready (l : Log) (d : Disk) : Type 0 where
  pub some_block : 0 < length l.lh
  pub fits : length l.lh < l.size
  pub short : length l.lh ≤ logsize
  pub outside : AllOutside l.start l.size l.lh
  pub empty : get_head (d l.start) ≡ []

-- The disk with the logged blocks as the cache has them.
abbrev pub overlay : List ℕ → Disk → Disk → Disk
overlay bs new old b = if has b bs then new b else old b

-- What a disk may mean after a commit was cut short: the state before, or the one after.
abbrev pub BeforeOrAfter : Log → Machine → Disk → Type 0
BeforeOrAfter l m d =
    Means l.start l.size m.disk d ⊎ Means l.start l.size (overlay l.lh m.cache m.disk) d

-- While only log entries have been written, the disk means what it held.
LogOnly-Means :
    (l : Log) (d d' : Disk) → Ready l d → LogOnly l.start l.size d d' → Means l.start l.size d d'
LogOnly-Means l d d' r f =
    cleared-Means l.start l.size d' d (omega (arith, r.fits))
      (ap get_head (f l.start (omega arith)) ∙ r.empty) (λ b out. f b (omega arith))

Holding-header :
    (start : ℕ) (d c : Disk) (v : Block) (tail : ℕ) (bs : List ℕ)
    → Holding start d c tail bs
    → Holding start (update d start v) c tail bs
Holding-header start d c v tail [] h = tt
Holding-header start d c v tail (x ∷ xs) h =
    (ground (arith, h.0), Holding-header start d c v (tail + 1) xs h.1)

replay_from-overlay :
    (start : ℕ) (d c old : Disk) (bs : List ℕ) (b : ℕ) (v : Block)
    → Holding start d c 0 bs
    → v ≡ old b
    → replay_from start d 0 bs b v ≡ overlay bs c old b
replay_from-overlay start d c old bs b v h e = elim (Bool-cases (has b bs)) [
  | inl q ↦ rw q (replay_from_new start d c 0 bs b v h (inl q))
  | inr q ↦ rw q (replay_from_unlogged start d 0 bs b v q ∙ e)
]

-- Once the header is on the disk, the disk means the state after.
header-Means :
    (l : Log) (m m' : Machine) (hb : Block)
    → Ready l m.disk
    → Wrote l.start l.size m.cache 0 l.lh m m'
    → Means l.start l.size (overlay l.lh m.cache m.disk) (update m'.disk l.start (put_head l.lh hb))
header-Means l m m' hb r w = record {
  is_log = record { fits = rw e r.fits; outside = rw e r.outside };
  blocks = λ b out.
      ap (λ bs. replay_from l.start d 0 bs b (d b)) e
      ∙ replay_from-overlay l.start d m.cache m.disk l.lh b (d b)
          (Holding-header l.start m'.disk m.cache (put_head l.lh hb) 0 l.lh w.holding) (same b out);
}
  where
    d : Disk
    d = update m'.disk l.start (put_head l.lh hb)

    same : (b : ℕ) → Outside l.start l.size b → d b ≡ m.disk b
    same b out = ground (arith, w.entries b, r.fits)

    e : get_head (d l.start) ≡ l.lh
    e = ground (arith, get_head-put_head l.lh hb (omega (arith, r.short)))

-- commit() of a ready log either ends, with the state after in place and the log empty, or is cut
-- short by a crash, and then the disk means the state before or the state after.
pub commit-Holds :
    (l : Log) (m : Machine)
    → Ready l m.disk
    → Holds (commit l m) (BeforeOrAfter l m) (λ l' m'.
      (l' ≡ record l { lh = [] }) × Clean l.start l.size (overlay l.lh m.cache m.disk) m'.disk)
unfolding commit write_log write_head bread
commit-Holds l m r = rw (lt→ltb 0 (length l.lh) r.some_block) (
    Holds-bind (write_from l.start 0 l.lh m) (λ _. after_log) P Q
      (Holds-mono (write_from l.start 0 l.lh m) (LogOnly l.start l.size m.disk) P
        (λ _ m'. Wrote l.start l.size m.cache 0 l.lh m m') (λ _ m'. Holds (after_log m') P Q)
        (λ d f. inl (LogOnly-Means l m.disk d r f))
        (λ _ m' w.
          bwrite-bind-Holds l.start (put_head l.lh (m'.cache l.start)) m' (λ _. after_head) P Q
            (inl (LogOnly-Means l m.disk m'.disk r w.entries))
            (λ k _.
              let m2 : Machine = written m' l.start (put_head l.lh (m'.cache l.start)) k in
              Holds-mono (after_head m2) (Means l.start l.size (overlay l.lh m.cache m.disk)) P Q Q
                (λ d v. inr v) (λ _ _ q. q)
                (install-Holds l m2 (overlay l.lh m.cache m.disk)
                  (header-Means l m m' (m'.cache l.start) r w)
                  (ground
                    (arith, get_head-put_head l.lh (m'.cache l.start) (omega (arith, r.short))))
                  (λ i h. ground (arith, w.coherent i (omega arith))))))
        (write_from_lem l.start l.size m.cache 0 l.lh m r.outside (omega (arith, r.fits))
          (λ b h. refl) (λ i h. absurd (omega arith)))))
  where
    P : Disk → Type 0
    P = BeforeOrAfter l m

    Q : Log → Machine → Type 0
    Q l' m' =
        (l' ≡ record l { lh = [] }) × Clean l.start l.size (overlay l.lh m.cache m.disk) m'.disk

    after_head : M Log
    after_head =
        install_trans l >> (write_head (record l { lh = [] }) >> pure (record l { lh = [] }))

    after_log : M Log
    after_log = write_head l >> after_head
