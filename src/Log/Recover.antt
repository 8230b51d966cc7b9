-- ===== src/Log/Recover.antt =====
-- recover_from_log(): it installs what was committed, a crash inside it loses nothing, and it ends.
use large_project.Prelude.{ℕ, ◌<◌, ◌≡◌, refl, sym, ap, ◌∙◌, [], length, arith, subst}
use large_project.Disk.{Disk, Machine, bread, boot, pure, M, ◌>>◌}
use large_project.Disk.Triple.{Holds, Holds-mono, Holds-bind, bwrite-bind-Holds}
use large_project.Log.{Log, install_from, write_head, read_head, install_trans, recover_from_log}
use large_project.Log.Header.{put_head, get_head, get_head-put_head}
use large_project.Log.Replay.{Outside, AllOutside, replay_from, Touches}
use large_project.Log.Meaning.{Means, Touches-Means, replayed-Touches, cleared-Means}
use large_project.Log.Loops.{Coherent, install_from_lem}

-- The log is empty and the blocks outside it are those of `want`.
pub record Clean (start size : ℕ) (want d : Disk) : Type 0 where
  pub empty : get_head (d start) ≡ []
  pub blocks : (b : ℕ) → Outside start size b → d b ≡ want b

pub Clean-Means :
    (start size : ℕ) (want d : Disk) → 0 < size → Clean start size want d → Means start size want d
Clean-Means start size want d pos c = cleared-Means start size d want pos c.empty c.blocks

-- The last write of a commit or a recovery empties the header.
pub write_head_empty-Holds :
    (l : Log) (m : Machine) (want : Disk) (R : Disk → Type 0)
    → ((b : ℕ) → Outside l.start l.size b → m.disk b ≡ want b)
    → 0 < l.size
    → R m.disk
    → Holds
        ((write_head (record l { lh = [] }) >> pure (record l { lh = [] })) m)
        R
        (λ l' m'. (l' ≡ record l { lh = [] }) × Clean l.start l.size want m'.disk)
unfolding write_head bread
write_head_empty-Holds l m want R h pos r =
    bwrite-bind-Holds l.start (put_head [] (m.cache l.start)) m (λ _. pure (record l { lh = [] })) R
      (λ l' m'. (l' ≡ record l { lh = [] }) × Clean l.start l.size want m'.disk) r
      (λ k e. (
        refl,
        record {
          empty = ground (arith, get_head-put_head [] (m.cache l.start) (omega arith));
          blocks = λ b out. ground (arith, h b out);
        },
      ))

-- Where header and entries of the disk are those of `l`, the rest of a commit or of a recovery gives
-- the disk its meaning, and a crash inside it keeps that meaning.
pub install-Holds :
    (l : Log) (m : Machine) (want : Disk)
    → Means l.start l.size want m.disk
    → get_head (m.disk l.start) ≡ l.lh
    → Coherent l.start (length l.lh) m
    → Holds
        ((install_trans l >> (write_head (record l { lh = [] }) >> pure (record l { lh = [] }))) m)
        (Means l.start l.size want)
        (λ l' m'. (l' ≡ record l { lh = [] }) × Clean l.start l.size want m'.disk)
unfolding install_trans
install-Holds l m want v e coh =
    Holds-bind (install_from l.start 0 l.lh m) (λ _. rest) P Q
      (Holds-mono (install_from l.start 0 l.lh m) (Touches l.lh m.disk) P
        (λ _ m'. (b : ℕ) → m'.disk b ≡ replay_from l.start m.disk 0 l.lh b (m.disk b))
        (λ _ m'. Holds (rest m') P Q) (λ d' t. keep d' t)
        (λ _ m' f.
          write_head_empty-Holds l m' want P
            (λ b out.
              f b
              ∙ ap (λ bs. replay_from l.start m.disk 0 bs b (m.disk b)) (sym e)
              ∙ v.blocks b out)
            (omega (arith, v.is_log.fits))
            (keep m'.disk (replayed-Touches l.start l.size m.disk m'.disk l.lh f)))
        (install_from_lem l.start l.size 0 l.lh m
          (subst (AllOutside l.start l.size) e v.is_log.outside)
          (omega (arith, v.is_log.fits, ap length e)) (λ i h. coh i (omega arith))))
  where
    P : Disk → Type 0
    P = Means l.start l.size want

    Q : Log → Machine → Type 0
    Q l' m' = (l' ≡ record l { lh = [] }) × Clean l.start l.size want m'.disk

    rest : M Log
    rest = write_head (record l { lh = [] }) >> pure (record l { lh = [] })

    keep : (d' : Disk) → Touches l.lh m.disk d' → Means l.start l.size want d'
    keep d' t =
        Touches-Means l.start l.size m.disk d' want v (subst (λ bs. Touches bs m.disk d') (sym e) t)

-- From any disk that means `want`, recovery ends with exactly `want` outside an empty log; a crash
-- inside it leaves a disk that still means `want`.
pub recover_from_log-Holds :
    (l : Log) (want d : Disk) (k : ℕ)
    → Means l.start l.size want d
    → Holds
        (recover_from_log l (boot d k))
        (Means l.start l.size want)
        (λ l' m'. (l' ≡ record l { lh = [] }) × Clean l.start l.size want m'.disk)
unfolding recover_from_log read_head bread
recover_from_log-Holds l want d k v =
    install-Holds (record l { lh = get_head (d l.start) }) (boot d k) want v refl (λ i h. refl)
