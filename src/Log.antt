-- ===== src/Log.antt =====
-- log.c: the write-ahead log that makes each file-system call atomic across a crash.
-- The functions that touch only `log` are steps on the record; those that read and write blocks
-- run in the monad of `Disk`. What `log.lock` encloses is one step.
pub mod Header
pub mod Replay
pub mod Loops
pub mod Meaning
pub mod Recover
pub mod Commit
pub mod Restart
pub mod Absorb
pub mod Reserve
pub mod Space
mod Tests
use large_project.Prelude.{
  ℕ, zero, suc, ◌+◌, ◌-◌, ◌*◌, Bool, true, false, ◌||◌, List, [], ◌∷◌, length, ltb, leb, ◌==◌,
  if◌then◌else◌,
}
use large_project.Prelude.Int.{ℤ, pos, ◌+ℤ◌, ◌-ℤ◌, ◌*ℤ◌, ltb_ℤ}
use large_project.Prelude.Outcome.{Outcome, ok, panic}
use large_project.Prelude.Param.{maxopblocks, logsize}
use large_project.Disk.{Block, M, ◌>>=◌, ◌>>◌, pure, stop, bread, bwrite}
use Header.{put_head, get_head}

-- `struct log`. `lh` holds the first `n` entries of `lh.block`; `sleepers` counts the processes
-- that sleep on `&log`.
pub record Log : Type 0 where
  pub start : ℕ
  pub size : ℕ
  pub outstanding : ℤ
  pub committing : Bool
  pub lh : List ℕ
  pub sleepers : ℕ

-- wakeup(&log)
abbrev pub wakeup : Log → Log
wakeup l = record l { sleepers = 0 }

-- One turn of the loop of begin_op(): true if the call has begun, false if it sleeps.
unfoldable pub begin_op : Log → Log × Bool
unfolding ◌+ℤ◌ ◌*ℤ◌
begin_op l =
    if l.committing
    then (record l { sleepers = l.sleepers + 1 }, false)
    else if ltb_ℤ (pos logsize) (pos (length l.lh) +ℤ (l.outstanding +ℤ pos 1) *ℤ pos maxopblocks)
    then (record l { sleepers = l.sleepers + 1 }, false)
    else (record l { outstanding = l.outstanding +ℤ pos 1 }, true)

is_zero : ℤ → Bool
is_zero (pos n) = n == 0
is_zero _ = false

-- The first critical section of end_op(): the new log, and whether the caller must commit.
unfoldable pub end_op_first : Log → Outcome (Log × Bool)
unfolding ◌-ℤ◌ is_zero
end_op_first l =
    let l' = record l { outstanding = l.outstanding -ℤ pos 1 } in
    if l.committing
    then panic "log.committing"
    else if is_zero l'.outstanding
    then ok (record l' { committing = true }, true)
    else ok (wakeup l', false)

-- The second, after commit().
unfoldable pub end_op_last : Log → Log
end_op_last l = wakeup (record l { committing = false })

-- The loop of log_write() and the store after it, with `if (i == log.lh.n) log.lh.n++`.
unfoldable pub absorb : List ℕ → ℕ → List ℕ
absorb [] b = b ∷ []
absorb (x ∷ xs) b = if x == b then b ∷ xs else x ∷ absorb xs b

-- log_write() of a buffer for block `b`. `size - 1` is taken in ℤ.
unfoldable pub log_write : Log → ℕ → Outcome Log
log_write l b =
    if leb logsize (length l.lh) || leb l.size (length l.lh + 1)
    then panic "too big a transaction"
    else if ltb_ℤ l.outstanding (pos 1)
    then panic "log_write outside of trans"
    else ok (record l { lh = absorb l.lh b })

module _ (start : ℕ) where
  -- The loop of install_trans() from `tail` on.
  unfoldable pub install_from : ℕ → List ℕ → M (Unit {0})
  install_from tail [] = pure tt
  install_from tail (b ∷ bs) = do
    lbuf ← bread (start + tail + 1)
    dbuf ← bread b
    bwrite b lbuf
    install_from (tail + 1) bs

  -- The loop of write_log() from `tail` on.
  unfoldable pub write_from : ℕ → List ℕ → M (Unit {0})
  write_from tail [] = pure tt
  write_from tail (b ∷ bs) = do
    to ← bread (start + tail + 1)
    from ← bread b
    bwrite (start + tail + 1) from
    write_from (tail + 1) bs

unfoldable pub install_trans : Log → M (Unit {0})
install_trans l = install_from l.start 0 l.lh

unfoldable pub write_log : Log → M (Unit {0})
write_log l = write_from l.start 0 l.lh

unfoldable pub read_head : Log → M Log
read_head l = do buf ← bread l.start; pure (record l { lh = get_head buf })

unfoldable pub write_head : Log → M (Unit {0})
write_head l = do buf ← bread l.start; bwrite l.start (put_head l.lh buf)

-- recover_from_log()
unfoldable pub recover_from_log : Log → M Log
recover_from_log l = do
  l1 ← read_head l
  install_trans l1
  write_head (record l1 { lh = [] })
  pure (record l1 { lh = [] })

unfoldable pub commit : Log → M Log
commit l =
    if ltb 0 (length l.lh)
    then (do
      write_log l
      write_head l
      install_trans l
      write_head (record l { lh = [] })
      pure (record l { lh = [] }))
    else pure l

-- initlog(), given what readsb() found. The header fits its block: 4 + 4 * LOGSIZE < BSIZE.
unfoldable pub initlog : ℕ → ℕ → M Log
unfolding recover_from_log
initlog logstart nlog = recover_from_log (record {
  start = logstart;
  size = nlog;
  outstanding = pos 0;
  committing = false;
  lh = [];
  sleepers = 0;
})

-- end_op(): a commit with no lock held stands between its two sections.
unfoldable pub end_op : Log → M Log
unfolding end_op_first end_op_last commit
end_op l = elim (end_op_first l) [
  | panic s ↦ stop s
  | ok (l', do_commit) ↦ if do_commit then (do l2 ← commit l'; pure (end_op_last l2)) else pure l'
]
