-- ===== src/Log/Tests.antt =====
-- The log on concrete disks.
use large_project.Prelude.{
  ℕ, zero, suc, ◌+◌, ◌<◌, ◌≡◌, ◌⊎◌, refl, true, false, List, [], ◌∷◌, inr, length, if◌then◌else◌,
  ◌==◌, arith,
}
use large_project.Prelude.Int.{pos}
use large_project.Prelude.Outcome.{ok, panic}
use large_project.Disk.{Disk, Machine, crashed, done, boot, bread, bwrite, update}
use large_project.Log.{
  Log, commit, write_log, write_from, write_head, begin_op, log_write, absorb, recover_from_log,
}
use large_project.Log.Header.{get_head, put_head, get_head-put_head}
use large_project.Log.Absorb.{Logged, log_write-Logged}
use large_project.Log.Commit.{Ready, overlay}
use large_project.Log.Recover.{Clean}
use large_project.Log.Restart.{restarts, crash_atomic}
use large_project.Log.Reserve.{Calls, begins, sleeps}
use large_project.Log.Space.{
  Reach, here, next, fresh, log_write_safe, no_lost_wakeup, small_log_overflows,
}

-- A log at block 2 with block 40 logged.
abbrev one_logged : Log
one_logged = record {
  start = 2;
  size = 31;
  outstanding = pos 0;
  committing = true;
  lh = 40 ∷ [];
  sleepers = 0;
}

abbrev empty_disk : Disk
empty_disk b w = 0

-- Block 40 has been changed in the cache, and the power fails after one write.
abbrev changed : Machine
changed = record { disk = empty_disk; cache = λ b w. if b == 40 then 7 else 0; writes_left = 1 }

-- The disk after that write.
abbrev cut_short : Disk
cut_short = update empty_disk 3 (changed.cache 40)

one_logged-Ready : Ready one_logged empty_disk
unfolding get_head
one_logged-Ready = record {
  some_block = omega arith;
  fits = omega arith;
  short = omega arith;
  outside = (inr (omega arith), tt);
  empty = refl;
}

cut_short_lem : commit one_logged changed ≡ crashed cut_short
unfolding commit write_log write_from write_head bread bwrite
cut_short_lem = refl

crash_atomic_example :
    (m' : Machine) × (recover_from_log one_logged
        (boot (restarts one_logged (0 ∷ 1 ∷ []) cut_short) 31)
      ≡ done (record one_logged { lh = [] }) m')
    × (Clean 2 31 empty_disk m'.disk
        ⊎ Clean 2 31 (overlay (40 ∷ []) changed.cache empty_disk) m'.disk)
crash_atomic_example =
    crash_atomic one_logged changed cut_short (0 ∷ 1 ∷ []) 31 one_logged-Ready cut_short_lem
      (omega arith)

-- The state after one begin_op().
abbrev one_begun : Calls
one_begun = record {
  log = record {
    start = 2;
    size = 31;
    outstanding = pos 1;
    committing = false;
    lh = [];
    sleepers = 0;
  };
  budgets = 10 ∷ [];
}

abbrev two_begun : Calls
two_begun = record one_begun {
  log = record one_begun.log { outstanding = pos 2 };
  budgets = 10 ∷ 10 ∷ [];
}

abbrev three_begun : Calls
three_begun = record one_begun {
  log = record one_begun.log { outstanding = pos 3 };
  budgets = 10 ∷ 10 ∷ 10 ∷ [];
}

-- A fourth call does not fit, and sleeps.
abbrev fourth_sleeps : Calls
fourth_sleeps = record three_begun { log = record three_begun.log { sleepers = 1 } }

one_begun-Reach : Reach (fresh 2 31) one_begun
unfolding begin_op
one_begun-Reach = next here (begins refl refl)

fourth_sleeps-Reach : Reach (fresh 2 31) fourth_sleeps
unfolding begin_op
fourth_sleeps-Reach =
    next {t = three_begun}
      (next {t = two_begun} (next {t = one_begun} one_begun-Reach (begins refl refl))
        (begins refl refl))
      (sleeps refl refl)

log_write_safe_example :
    log_write one_begun.log 40 ≡ ok (record one_begun.log { lh = absorb [] 40 })
log_write_safe_example = log_write_safe 2 31 0 9 40 one_begun (omega arith) one_begun-Reach refl

no_lost_wakeup_example : (fourth_sleeps.log.committing ≡ true) ⊎ (0 < length fourth_sleeps.budgets)
no_lost_wakeup_example = no_lost_wakeup 2 31 fourth_sleeps fourth_sleeps-Reach (omega arith)

-- 29 different blocks.
abbrev blocks_from : ℕ → ℕ → List ℕ
blocks_from b zero = []
blocks_from b (suc n) = b ∷ blocks_from (b + 1) n

abbrev full_log : Log
full_log = record one_begun.log { size = 30; lh = blocks_from 100 29 }

full_log_test : log_write full_log 40 ≡ panic "too big a transaction"
full_log_test = small_log_overflows full_log 40 refl refl

logs_one : log_write one_begun.log 40 ≡ ok (record one_begun.log { lh = 40 ∷ [] })
unfolding log_write absorb
logs_one = refl

log_write-Logged_example : Logged one_begun.log 40 (record one_begun.log { lh = 40 ∷ [] })
log_write-Logged_example = log_write-Logged one_begun.log 40 logs_one

get_head-put_head_example : get_head (put_head (40 ∷ 41 ∷ []) (λ w. 5)) ≡ 40 ∷ 41 ∷ []
get_head-put_head_example = get_head-put_head (40 ∷ 41 ∷ []) (λ w. 5) (omega arith)
