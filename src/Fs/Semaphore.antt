-- ===== src/Fs/Semaphore.antt =====
-- filelock() and fileunlock() of one file, called by any processes in any order, as a semaphore.
use large_project.Prelude.{
  ℕ, suc, ◌+◌, ◌<◌, ◌≡◌, ◌≢◌, refl, sym, ap, ◌∙◌, subst, inl, inr, Bool, true, false, Option, none,
  some, List, [], ◌∷◌, ltb, ◌==◌, if◌then◌else◌, arith, Bool-cases,
}
use large_project.Disk.{update, update_self, update_other}
use large_project.Sleeplock.{Sleeplock, acquiresleep, releasesleep, holdingsleep}
use large_project.File.{File}
use large_project.Fs.State.{Inode, World, Run, done, panicked, waits, get_inode, put_inode}
use large_project.Fs.Inode.{fsemaphore_lock, fsemaphore_unlock, take_lock}
use large_project.Fs.Flock.{entry_of, lock_entry, unlock_entry, filelock, fileunlock}

-- What a call comes to: the result 0 or -1, sleep, or a panic.
pub data Result : Type 0 where
  accepted refused sleeping crashed : Result

-- A semaphore: its owner, and how many sleep on it.
pub record Sem : Type 0 where
  pub owner : Option ℕ
  pub asleep : ℕ

-- A call by a process: to lock, or to unlock.
pub data Call : Type 0 where
  lock unlock : ℕ → Call

-- A semaphore that is free goes to the process that asks; otherwise this one sleeps. The owner alone
-- may give it back, which wakes all that sleep.
abbrev pub sem_call : Call → Sem → Result × Sem
sem_call (lock b) m = elim m.owner [
  | none ↦ (accepted, record m { owner = some b })
  | some a ↦ (sleeping, record m { asleep = m.asleep + 1 })
]
sem_call (unlock b) m = elim m.owner [
  | none ↦ (refused, m)
  | some a ↦ if a == b then (accepted, record { owner = none; asleep = 0 }) else (refused, m)
]

abbrev pub sem_calls : List Call → Sem → List Result × Sem
sem_calls [] m = ([], m)
sem_calls (c ∷ cs) m = let r = sem_call c m in let rest = sem_calls cs r.1 in (r.0 ∷ rest.0, rest.1)

-- The calls of the program.
abbrev pub result_of : Run Bool → Result
result_of (done b w) = if b then accepted else refused
result_of (panicked s) = crashed
result_of (waits ip w) = sleeping

abbrev pub world_of : World → Run Bool → World
world_of w (done b w') = w'
world_of w (panicked s) = w
world_of w (waits ip w') = w'

abbrev pub file_call : File → Call → World → Run Bool
file_call f (lock b) = filelock b f
file_call f (unlock b) = fileunlock b f

abbrev pub file_calls : File → List Call → World → List Result × World
file_calls f [] w = ([], w)
file_calls f (c ∷ cs) w =
    let r = file_call f c w in
    let rest = file_calls f cs (world_of w r) in (result_of r ∷ rest.0, rest.1)

-- The lock of an entry as a semaphore.
abbrev pub sem_of : Sleeplock → Sem
sem_of lk = record { owner = if lk.locked then some lk.pid else none; asleep = lk.sleepers }

-- Nothing differs but the lock for flock() of entry `ip`.
abbrev pub SameBut : ℕ → World → World → Type 0
SameBut ip w w' =
    (w'.blocks ≡ w.blocks)
    × (w'.logged ≡ w.logged)
    × ((w'.icache ip) ≡ record (w.icache ip) { flock = (w'.icache ip).flock })
    × ((j : ℕ) → j ≢ ip → w'.icache j ≡ w.icache j)

-- The state with the lock of entry `ip` replaced.
abbrev with_flock : World → ℕ → Sleeplock → World
with_flock w ip lk = record w { icache = update w.icache ip (record (w.icache ip) { flock = lk }) }

-- A call has done what the semaphore does.
abbrev Agrees : ℕ → World → Result × Sem → Run Bool → Type 0
Agrees ip w r m =
    (result_of m ≡ r.0)
    × (sem_of ((world_of w m).icache ip).flock ≡ r.1)
    × SameBut ip w (world_of w m)

SameBut-self : (ip : ℕ) (w : World) → SameBut ip w w
SameBut-self ip w = (refl, refl, refl, λ j ne. refl)

SameBut-with_flock : (ip : ℕ) (w : World) (lk : Sleeplock) → SameBut ip w (with_flock w ip lk)
SameBut-with_flock ip w lk =
    let self = update_self w.icache ip (record (w.icache ip) { flock = lk }) in
    (
      refl,
      refl,
      self ∙ ap (λ (e : Inode). record (w.icache ip) { flock = e.flock }) (sym self),
      λ j ne. update_other w.icache ip _ j (λ e. ne (sym e)),
    )

sem_of-with_flock :
    (ip : ℕ) (w : World) (lk : Sleeplock)
    → sem_of ((with_flock w ip lk).icache ip).flock ≡ sem_of lk
sem_of-with_flock ip w lk =
    ap (λ (e : Inode). sem_of e.flock)
      (update_self w.icache ip (record (w.icache ip) { flock = lk }))

module _ (b ip : ℕ) (f : File) (w : World) (at : f.ip ≡ suc ip)
    (low : ltb (w.icache ip).ref 1 ≡ false) where
  abbrev lk : Sleeplock
  lk = (w.icache ip).flock

  lock-free :
      (w.icache ip).flock.locked ≡ false
      → filelock b f w ≡ done true (with_flock w ip (record lk { locked = true; pid = b }))
  unfolding filelock entry_of lock_entry get_inode fsemaphore_lock put_inode take_lock acquiresleep
  lock-free e = rw (at, low) (rw (low, e) refl)

  lock-held :
      (w.icache ip).flock.locked ≡ true
      → filelock b f w ≡ waits ip (with_flock w ip (record lk { sleepers = lk.sleepers + 1 }))
  unfolding filelock entry_of lock_entry get_inode fsemaphore_lock take_lock acquiresleep
  lock-held e = rw (at, low) (rw (low, e) refl)

  unlock-free : (w.icache ip).flock.locked ≡ false → fileunlock b f w ≡ done false w
  unfolding fileunlock entry_of unlock_entry get_inode holdingsleep
  unlock-free e = rw at (rw e refl)

  unlock-other :
      (w.icache ip).flock.locked ≡ true
      → ((w.icache ip).flock.pid == b) ≡ false
      → fileunlock b f w ≡ done false w
  unfolding fileunlock entry_of unlock_entry get_inode holdingsleep
  unlock-other e n = rw at (rw (e, n) refl)

  unlock-own :
      (w.icache ip).flock.locked ≡ true
      → ((w.icache ip).flock.pid == b) ≡ true
      → fileunlock b f w
        ≡ done true (with_flock w ip (record { locked = false; pid = 0; sleepers = 0 }))
  unfolding fileunlock entry_of unlock_entry get_inode put_inode holdingsleep fsemaphore_unlock
      releasesleep
  unlock-own e y = rw at (rw (e, y, low) (rw (e, y, low) refl))

lock-Agrees :
    (b ip : ℕ) (f : File) (w : World)
    → f.ip ≡ suc ip
    → ltb (w.icache ip).ref 1 ≡ false
    → Agrees ip w (sem_call (lock b) (sem_of (w.icache ip).flock)) (filelock b f w)
lock-Agrees b ip f w at low = elim (Bool-cases (w.icache ip).flock.locked) [
  | inl y ↦
      subst (Agrees ip w (sem_call (lock b) (sem_of (w.icache ip).flock)))
        (sym (lock-held b ip f w at low y))
        (rw y refl, sem_of-with_flock ip w _ ∙ rw y refl, SameBut-with_flock ip w _)
  | inr n ↦
      subst (Agrees ip w (sem_call (lock b) (sem_of (w.icache ip).flock)))
        (sym (lock-free b ip f w at low n))
        (rw n refl, sem_of-with_flock ip w _ ∙ rw n refl, SameBut-with_flock ip w _)
]

unlock-Agrees :
    (b ip : ℕ) (f : File) (w : World)
    → f.ip ≡ suc ip
    → ltb (w.icache ip).ref 1 ≡ false
    → Agrees ip w (sem_call (unlock b) (sem_of (w.icache ip).flock)) (fileunlock b f w)
unlock-Agrees b ip f w at low = elim (Bool-cases (w.icache ip).flock.locked) [
  | inr n ↦
      subst (Agrees ip w (sem_call (unlock b) (sem_of (w.icache ip).flock)))
        (sym (unlock-free b ip f w at low n)) (rw n refl, rw n refl, SameBut-self ip w)
  | inl y ↦ elim (Bool-cases ((w.icache ip).flock.pid == b)) [
    | inl mine ↦
        subst (Agrees ip w (sem_call (unlock b) (sem_of (w.icache ip).flock)))
          (sym (unlock-own b ip f w at low y mine))
          (
            rw (y, mine) refl,
            sem_of-with_flock ip w _ ∙ rw (y, mine) refl,
            SameBut-with_flock ip w _,
          )
    | inr other ↦
        subst (Agrees ip w (sem_call (unlock b) (sem_of (w.icache ip).flock)))
          (sym (unlock-other b ip f w at low y other))
          (rw (y, other) refl, rw (y, other) refl, SameBut-self ip w)
  ]
]

file_call-Agrees :
    (c : Call) (ip : ℕ) (f : File) (w : World)
    → f.ip ≡ suc ip
    → 0 < (w.icache ip).ref
    → Agrees ip w (sem_call c (sem_of (w.icache ip).flock)) (file_call f c w)
file_call-Agrees (lock b) ip f w at ref = lock-Agrees b ip f w at (ground arith)
file_call-Agrees (unlock b) ip f w at ref = unlock-Agrees b ip f w at (ground arith)

SameBut-trans : (ip : ℕ) (u v w : World) → SameBut ip u v → SameBut ip v w → SameBut ip u w
SameBut-trans ip u v w (b, l, e, o) (b', l', e', o') = (
  b' ∙ b,
  l' ∙ l,
  e' ∙ ap (λ (i : Inode). record i { flock = (w.icache ip).flock }) e,
  λ j ne. o' j ne ∙ o j ne,
)

-- What a sequence of calls has done.
abbrev pub Simulates : ℕ → World → List Result × Sem → List Result × World → Type 0
Simulates ip w r m = (m.0 ≡ r.0) × (sem_of (m.1.icache ip).flock ≡ r.1) × SameBut ip w m.1

-- Any sequence of calls of filelock() and fileunlock() by any processes, on an open file whose inode
-- is in use, gives the results of a semaphore: a process that asks while it is free gets it, and one
-- that asks while another or itself has it sleeps; the owner alone may give it back, and then wakes
-- all that sleep; any other fileunlock() gives -1 and leaves it. No call panics, and nothing
-- but the lock differs afterwards.
pub file_calls-Simulates :
    (cs : List Call) (ip : ℕ) (f : File) (w : World)
    → f.ip ≡ suc ip
    → 0 < (w.icache ip).ref
    → Simulates ip w (sem_calls cs (sem_of (w.icache ip).flock)) (file_calls f cs w)
file_calls-Simulates [] ip f w at ref = (refl, refl, SameBut-self ip w)
file_calls-Simulates (c ∷ cs) ip f w at ref =
    let (r, m, same) = file_call-Agrees c ip f w at ref in
    let w' = world_of w (file_call f c w) in
    let (_, _, e, _) = same in
    let (rs, ms, sames) =
      file_calls-Simulates cs ip f w' at
        (subst (λ n. 0 < n) (sym (ap (λ (i : Inode). i.ref) e)) ref) in
    (
      ap (λ x. x ∷ (file_calls f cs w').0) r
          ∙ ap (λ xs. (sem_call c (sem_of (w.icache ip).flock)).0 ∷ xs)
              (rs ∙ ap (λ (s : Sem). (sem_calls cs s).0) m),
      ms ∙ ap (λ (s : Sem). (sem_calls cs s).1) m,
      SameBut-trans ip w w' (file_calls f cs w').1 same sames,
    )
