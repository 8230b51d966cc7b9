-- ===== src/Log/Reserve.antt =====
-- The space that begin_op() reserves: calls in progress as a step relation.
use large_project.Prelude.{
  ℕ, zero, suc, ◌+◌, ◌*◌, ◌≤◌, ◌<◌, ◌≡◌, ◌⊎◌, ◌≢◌, Bool, true, false, List, [], ◌∷◌, ◌++◌, length,
  if◌then◌else◌, arith, get_elem?, set, some,
}
use large_project.Prelude.Int.{pos}
use large_project.Prelude.Param.{maxopblocks, logsize}
use large_project.Prelude.Outcome.{ok}
use large_project.Log.{Log, begin_op, end_op_first, end_op_last, log_write}
use large_project.Log.Replay.{has}

-- The log, and for each file-system call in progress the number of blocks that it may still add.
pub record Calls : Type 0 where
  pub log : Log
  pub budgets : List ℕ

-- Calls begin with MAXOPBLOCKS; a log_write() of a new block takes one from its call's budget.
pub data Step (s s' : Calls) : Type 0 where
  begins : begin_op s.log ≡ (s'.log, true) → s'.budgets ≡ maxopblocks ∷ s.budgets → Step s s'
  sleeps : begin_op s.log ≡ (s'.log, false) → s'.budgets ≡ s.budgets → Step s s'
  writes :
      (i k b : ℕ)
      → get_elem? s.budgets i ≡ some (suc k)
      → log_write s.log b ≡ ok s'.log
      → s'.budgets ≡ set s.budgets i (if has b s.log.lh then suc k else k)
      → Step s s'
  ends :
      (pre post : List ℕ) (k : ℕ) (c : Bool)
      → s.budgets ≡ pre ++ (k ∷ post)
      → end_op_first s.log ≡ ok (s'.log, c)
      → s'.budgets ≡ pre ++ post
      → Step s s'
  commits :
      s.log.committing ≡ true
      → s'.log ≡ end_op_last (record s.log { lh = [] })
      → s'.budgets ≡ s.budgets
      → Step s s'

abbrev pub total : List ℕ → ℕ
total [] = 0
total (k ∷ ks) = k + total ks

abbrev pub AllLe : ℕ → List ℕ → Type 0
AllLe n [] = Unit
AllLe n (k ∷ ks) = (k ≤ n) × AllLe n ks

-- What holds between the steps.
pub record Inv (s : Calls) : Type 0 where
  pub counted : s.log.outstanding ≡ pos (length s.budgets)
  pub within : AllLe maxopblocks s.budgets
  pub room : length s.log.lh + total s.budgets ≤ logsize
  pub quiet : s.log.committing ≡ true → s.budgets ≡ []
  pub clean : s.log.committing ≡ false → s.budgets ≡ [] → s.log.lh ≡ []
  pub woken : s.log.sleepers ≡ 0 ⊎ (s.log.committing ≡ true) ⊎ (s.budgets ≢ [])

pub total-le : (n : ℕ) (ks : List ℕ) → AllLe n ks → total ks ≤ n * length ks
total-le n [] h = omega arith
total-le n (k ∷ ks) h = grind (arith, total-le n ks h.1)

pub total-append : (xs ys : List ℕ) → total (xs ++ ys) ≡ total xs + total ys
total-append [] ys = omega arith
total-append (x ∷ xs) ys = omega (arith, total-append xs ys)

pub AllLe-remove :
    (n : ℕ) (xs : List ℕ) (k : ℕ) (ys : List ℕ) → AllLe n (xs ++ (k ∷ ys)) → AllLe n (xs ++ ys)
AllLe-remove n [] k ys h = h.1
AllLe-remove n (x ∷ xs) k ys h = (h.0, AllLe-remove n xs k ys h.1)

pub AllLe-set : (n : ℕ) (ks : List ℕ) (i v : ℕ) → v ≤ n → AllLe n ks → AllLe n (set ks i v)
AllLe-set n [] i v le h = tt
AllLe-set n (k ∷ ks) zero v le h = (le, h.1)
AllLe-set n (k ∷ ks) (suc i) v le h = (h.0, AllLe-set n ks i v le h.1)

pub AllLe-get : (n : ℕ) (ks : List ℕ) (i : ℕ) {v : ℕ} → get_elem? ks i ≡ some v → AllLe n ks → v ≤ n
AllLe-get n [] i e h = cc
AllLe-get n (k ∷ ks) zero e h = ground arith
AllLe-get n (k ∷ ks) (suc i) e h = AllLe-get n ks i e h.1

pub total-set :
    (ks : List ℕ) (i v w : ℕ) → get_elem? ks i ≡ some v → total (set ks i w) + v ≡ total ks + w
total-set [] i v w e = cc
total-set (k ∷ ks) zero v w e = ground arith
total-set (k ∷ ks) (suc i) v w e = omega (arith, total-set ks i v w e)

pub begin_op_begins :
    (l : Log) (n : ℕ) {l' : Log}
    → l.outstanding ≡ pos n
    → begin_op l ≡ (l', true)
    → (l.committing ≡ false)
      × (length l.lh + (n + 1) * maxopblocks ≤ logsize)
      × (l' ≡ record l { outstanding = pos (n + 1) })
unfolding begin_op
begin_op_begins l n q h = (ground arith, ground arith, ground arith)

pub begin_op_sleeps :
    (l : Log) (n : ℕ) {l' : Log}
    → l.outstanding ≡ pos n
    → begin_op l ≡ (l', false)
    → ((l.committing ≡ true) ⊎ (logsize < length l.lh + (n + 1) * maxopblocks))
      × (l' ≡ record l { sleepers = l.sleepers + 1 })
unfolding begin_op
begin_op_sleeps l n q h = (ground arith, ground arith)

pub end_op_first_cases :
    (l : Log) (n : ℕ) {l' : Log} {c : Bool}
    → l.outstanding ≡ pos (suc n)
    → end_op_first l ≡ ok (l', c)
    → (l.committing ≡ false)
      × (((n ≡ 0) × (l' ≡ record l { outstanding = pos n; committing = true }))
          ⊎ ((n ≢ 0) × (l' ≡ record l { outstanding = pos n; sleepers = 0 })))
unfolding end_op_first
end_op_first_cases l n q h = (ground arith, ground arith)

pub get_elem?-ne-nil : (ks : List ℕ) (i : ℕ) {v : ℕ} → get_elem? ks i ≡ some v → 0 < length ks
get_elem?-ne-nil [] i e = cc
get_elem?-ne-nil (k ∷ ks) i e = omega arith
