-- ===== src/Log/Restart.antt =====
-- Restarts after a crash: with enough disk writes every loop of the log ends, so some recovery does.
use large_project.Prelude.{
  ℕ, suc, ◌+◌, ◌*◌, ◌≤◌, ◌<◌, ◌≡◌, ap, ◌∙◌, ◌⊎◌, inl, inr, List, [], ◌∷◌, length, arith, subst,
  lt→ltb,
}
use large_project.Disk.{
  Disk, Machine, Run, done, crashed, panicked, bread, written, boot, pure, M, ◌>>◌,
}
use large_project.Disk.Triple.{Holds, Holds-mono, Holds-bind, bwrite-bind-ends, Holds-done}
use large_project.Log.{
  Log, install_from, write_from, write_head, read_head, install_trans, write_log, commit,
  recover_from_log,
}
use large_project.Log.Header.{put_head, get_head}
use large_project.Log.Meaning.{Means}
use large_project.Log.Recover.{Clean, Clean-Means, recover_from_log-Holds}
use large_project.Log.Commit.{Ready, BeforeOrAfter, overlay, commit-Holds}

-- The disk at the end of a run of the log.
abbrev disk_of : Run Log → Disk → Disk
disk_of (done l m) d = m.disk
disk_of (panicked s) d = d
disk_of (crashed d') d = d'

-- The disk after restarts with the given numbers of writes before the power fails again.
pub restarts : Log → List ℕ → Disk → Disk
restarts l [] d = d
restarts l (k ∷ ks) d = restarts l ks (disk_of (recover_from_log l (boot d k)) d)

Holds-Means :
    (l : Log) (r : Run Log) (want d : Disk)
    → 0 < l.size
    → Holds r
        (Means l.start l.size want)
        (λ l' m'. (l' ≡ record l { lh = [] }) × Clean l.start l.size want m'.disk)
    → Means l.start l.size want (disk_of r d)
Holds-Means l (done l' m) want d pos h = Clean-Means l.start l.size want m.disk pos h.1
Holds-Means l (panicked s) want d pos h = absurd h
Holds-Means l (crashed d') want d pos h = h

-- No number of restarts changes what a disk means.
restarts-Means :
    (l : Log) (ks : List ℕ) (want d : Disk)
    → Means l.start l.size want d
    → Means l.start l.size want (restarts l ks d)
unfolding restarts
restarts-Means l [] want d v = v
restarts-Means l (k ∷ ks) want d v =
    restarts-Means l ks want (disk_of (recover_from_log l (boot d k)) d) (
      Holds-Means l (recover_from_log l (boot d k)) want d (omega (arith, v.is_log.fits))
        (recover_from_log-Holds l want d k v))

-- The loops end where the machine makes a write for each block.
install_from_ends :
    (start tail : ℕ) (bs : List ℕ) (m : Machine)
    → length bs ≤ m.writes_left
    → Holds
        (install_from start tail bs m)
        (λ _. ⊥)
        (λ _ m'. m'.writes_left + length bs ≡ m.writes_left)
unfolding install_from bread
install_from_ends start tail [] m h = omega arith
install_from_ends start tail (x ∷ xs) m h =
    bwrite-bind-ends x (m.cache (start + tail + 1)) m (λ _. install_from start (tail + 1) xs)
      (λ _. ⊥) (λ _ m'. m'.writes_left + suc (length xs) ≡ m.writes_left) (omega arith)
      (λ k e.
        let m1 : Machine = written m x (m.cache (start + tail + 1)) k in
        Holds-mono (install_from start (tail + 1) xs m1) (λ _. ⊥) (λ _. ⊥)
          (λ _ m'. m'.writes_left + length xs ≡ k)
          (λ _ m'. m'.writes_left + suc (length xs) ≡ m.writes_left) (λ d f. f)
          (λ _ m' f. omega arith) (install_from_ends start (tail + 1) xs m1 (omega arith)))

write_from_ends :
    (start tail : ℕ) (bs : List ℕ) (m : Machine)
    → length bs ≤ m.writes_left
    → Holds
        (write_from start tail bs m)
        (λ _. ⊥)
        (λ _ m'. m'.writes_left + length bs ≡ m.writes_left)
unfolding write_from bread
write_from_ends start tail [] m h = omega arith
write_from_ends start tail (x ∷ xs) m h =
    bwrite-bind-ends (start + tail + 1) (m.cache x) m (λ _. write_from start (tail + 1) xs) (λ _. ⊥)
      (λ _ m'. m'.writes_left + suc (length xs) ≡ m.writes_left) (omega arith)
      (λ k e.
        let m1 : Machine = written m (start + tail + 1) (m.cache x) k in
        Holds-mono (write_from start (tail + 1) xs m1) (λ _. ⊥) (λ _. ⊥)
          (λ _ m'. m'.writes_left + length xs ≡ k)
          (λ _ m'. m'.writes_left + suc (length xs) ≡ m.writes_left) (λ d f. f)
          (λ _ m' f. omega arith) (write_from_ends start (tail + 1) xs m1 (omega arith)))

abbrev Ends : Run Log → Type 0
Ends r = Holds r (λ _. ⊥) (λ _ _. Unit {0})

install-Ends :
    (l : Log) (m : Machine)
    → length l.lh < m.writes_left
    → Ends
        ((install_trans l >> (write_head (record l { lh = [] }) >> pure (record l { lh = [] }))) m)
unfolding install_trans write_head bread
install-Ends l m h =
    Holds-bind (install_from l.start 0 l.lh m) (λ _. rest) (λ _. ⊥) (λ _ _. Unit {0})
      (Holds-mono (install_from l.start 0 l.lh m) (λ _. ⊥) (λ _. ⊥)
        (λ _ m'. m'.writes_left + length l.lh ≡ m.writes_left) (λ _ m'. Ends (rest m')) (λ d f. f)
        (λ _ m' e.
          bwrite-bind-ends l.start (put_head [] (m'.cache l.start)) m'
            (λ _. pure (record l { lh = [] })) (λ _. ⊥) (λ _ _. Unit {0}) (omega arith) (λ k q. tt))
        (install_from_ends l.start 0 l.lh m (omega arith)))
  where
    rest : M Log
    rest = write_head (record l { lh = [] }) >> pure (record l { lh = [] })

recover_from_log-Ends :
    (l : Log) (d : Disk) (k : ℕ)
    → length (get_head (d l.start)) < k
    → Ends (recover_from_log l (boot d k))
unfolding recover_from_log read_head bread
recover_from_log-Ends l d k h = install-Ends (record l { lh = get_head (d l.start) }) (boot d k) h

commit-Ends :
    (l : Log) (m : Machine)
    → Ready l m.disk
    → 2 * length l.lh + 2 ≤ m.writes_left
    → Ends (commit l m)
unfolding commit write_log write_head bread
commit-Ends l m r h = rw (lt→ltb 0 (length l.lh) r.some_block) (
    Holds-bind (write_from l.start 0 l.lh m) (λ _. write_head l >> rest) (λ _. ⊥) (λ _ _. Unit {0})
      (Holds-mono (write_from l.start 0 l.lh m) (λ _. ⊥) (λ _. ⊥)
        (λ _ m'. m'.writes_left + length l.lh ≡ m.writes_left)
        (λ _ m'. Ends ((write_head l >> rest) m')) (λ d f. f)
        (λ _ m' e.
          bwrite-bind-ends l.start (put_head l.lh (m'.cache l.start)) m' (λ _. rest) (λ _. ⊥)
            (λ _ _. Unit {0}) (omega arith)
            (λ k q.
              install-Ends l (written m' l.start (put_head l.lh (m'.cache l.start)) k)
                (omega arith)))
        (write_from_ends l.start 0 l.lh m (omega arith))))
  where
    rest : M Log
    rest = install_trans l >> (write_head (record l { lh = [] }) >> pure (record l { lh = [] }))

-- commit() of a ready log, with two disk writes for each block and two for the header, ends with an
-- empty log and, outside the log, exactly the disk with the cached contents of the logged blocks.
pub commit_ends :
    (l : Log) (m : Machine)
    → Ready l m.disk
    → 2 * length l.lh + 2 ≤ m.writes_left
    → (m' : Machine) × (commit l m ≡ done (record l { lh = [] }) m')
      × Clean l.start l.size (overlay l.lh m.cache m.disk) m'.disk
commit_ends l m r h =
    let (l', m', e, q) =
      Holds-done (commit l m) (BeforeOrAfter l m) (λ _. ⊥)
        (λ l' m'.
          (l' ≡ record l { lh = [] }) × Clean l.start l.size (overlay l.lh m.cache m.disk) m'.disk)
        (λ _ _. Unit {0}) (λ d f. f) (commit-Holds l m r) (commit-Ends l m r h) in
    (m', e ∙ ap (λ x. done x m') q.0, q.1)

recovered :
    (l : Log) (want d : Disk) (k : ℕ)
    → Means l.start l.size want d
    → l.size ≤ k
    → (m' : Machine) × (recover_from_log l (boot d k) ≡ done (record l { lh = [] }) m')
      × Clean l.start l.size want m'.disk
recovered l want d k v h =
    let (l', m', e, q) =
      Holds-done (recover_from_log l (boot d k)) (Means l.start l.size want) (λ _. ⊥)
        (λ l' m'. (l' ≡ record l { lh = [] }) × Clean l.start l.size want m'.disk) (λ _ _. Unit {0})
        (λ d f. f) (recover_from_log-Holds l want d k v)
        (recover_from_log-Ends l d k (omega (arith, v.is_log.fits))) in
    (m', e ∙ ap (λ x. done x m') q.0, q.1)

-- If commit() of a ready log is cut short by a crash, then after any number of restarts, each cut
-- short or not, a recovery that may make `size` writes or more ends with an empty log, and outside the log
-- the disk is as before the commit, or every logged block has its new contents and all else is kept.
pub crash_atomic :
    (l : Log) (m : Machine) (d : Disk) (ks : List ℕ) (k : ℕ)
    → Ready l m.disk
    → commit l m ≡ crashed d
    → l.size ≤ k
    → (m' : Machine) × (recover_from_log l (boot (restarts l ks d) k)
        ≡ done (record l { lh = [] }) m')
      × (Clean l.start l.size m.disk m'.disk
          ⊎ Clean l.start l.size (overlay l.lh m.cache m.disk) m'.disk)
crash_atomic l m d ks k r e h = elim at_crash [
  | inl v ↦
      let (m', q, c) = recovered l m.disk (restarts l ks d) k (restarts-Means l ks m.disk d v) h in
      (m', q, inl c)
  | inr v ↦
      let new : Disk = overlay l.lh m.cache m.disk in
      let (m', q, c) = recovered l new (restarts l ks d) k (restarts-Means l ks new d v) h in
      (m', q, inr c)
]
  where
    at_crash : BeforeOrAfter l m d
    at_crash =
        subst
          (λ x. Holds x (BeforeOrAfter l m) (λ l' m'.
            (l' ≡ record l { lh = [] })
            × Clean l.start l.size (overlay l.lh m.cache m.disk) m'.disk))
          e (commit-Holds l m r)
