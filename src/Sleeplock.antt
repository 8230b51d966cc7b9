-- ===== src/Sleeplock.antt =====
-- sleeplock.c: locks whose holder may sleep. What the spin lock `lk->lk` encloses is one step, and the
-- name of a lock is left out.
use large_project.Prelude.{ℕ, ◌+◌, Bool, true, false, ◌&&◌, ◌==◌, if◌then◌else◌}

-- `sleepers` counts the processes that sleep on the lock.
pub record Sleeplock : Type 0 where
  pub locked : Bool
  pub pid : ℕ
  pub sleepers : ℕ

unfoldable pub initsleeplock : Sleeplock
initsleeplock = record { locked = false; pid = 0; sleepers = 0 }

-- One turn of the loop of acquiresleep() by process `me`: true if it has the lock, false if it sleeps.
unfoldable pub acquiresleep : ℕ → Sleeplock → Sleeplock × Bool
acquiresleep me lk =
    if lk.locked
    then (record lk { sleepers = lk.sleepers + 1 }, false)
    else (record lk { locked = true; pid = me }, true)

unfoldable pub releasesleep : Sleeplock → Sleeplock
releasesleep lk = record { locked = false; pid = 0; sleepers = 0 }

unfoldable pub holdingsleep : ℕ → Sleeplock → Bool
holdingsleep me lk = lk.locked && lk.pid == me
