-- ===== src/Proc/Starve.antt =====
-- scheduler(): what `lowestPriority` does over time.
use large_project.Prelude.{
  ℕ, zero, suc, ◌+◌, ◌≡◌, ◌⊎◌, inl, inr, false, List, [], ◌∷◌, ◌++◌, none, some, get_elem?, arith,
  Bool-cases, Option-cases,
}
use large_project.Prelude.Int.{ℤ, ◌≤ℤ◌}
use large_project.Proc.{modify}
use large_project.Proc.Table.{runnable, running, Proc}
use large_project.Proc.Switch.{skips, visit, pass, scheduler_loop}

-- The priorities of the chosen slots fall, from `bound` on.
abbrev pub Descends : ℤ → List (ℕ × ℤ) → Type 0
Descends bound [] = Unit
Descends bound ((i, q) ∷ r) = (q ≤ℤ bound) × Descends q r

-- A turn either passes the slot over, or chooses a RUNNABLE process whose priority is at most
-- `lowest`, marks it RUNNING, and lowers `lowest` to its priority.
visit-cases :
    (i : ℕ) (ps : List Proc) (lowest : ℤ)
    → (visit i ps lowest ≡ (ps, lowest, none))
      ⊎ ((p : Proc) × (get_elem? ps i ≡ some p)
          × (p.state ≡ runnable)
          × (p.priority ≤ℤ lowest)
          × (visit i ps lowest
              ≡ (modify ps i (λ q. record q { state = running }), p.priority, some p.priority)))
unfolding visit
visit-cases i ps lowest = elim (Option-cases (get_elem? ps i)) [
  | inl e ↦ inl (rw (e, visit))
  | inr (p, e) ↦ elim (Bool-cases (skips lowest p)) [
    | inl s ↦ inl (rw (e, visit) (rw s))
    | inr s ↦ inr (p, e, (may_run p s).0, (may_run p s).1, rw (e, visit) (rw s))
  ]
]
  where
    may_run : (p : Proc) → skips lowest p ≡ false → (p.state ≡ runnable) × (p.priority ≤ℤ lowest)
    may_run p s = (ground arith, ground arith)

pass-Descends :
    (others : ℕ → List Proc → List Proc) (n i : ℕ) (ps : List Proc) (lowest : ℤ)
    (rest : List (ℕ × ℤ))
    → Descends (pass others n i ps lowest).1 rest
    → Descends lowest ((pass others n i ps lowest).2 ++ rest)
unfolding pass
pass-Descends others zero i ps lowest rest d = d
pass-Descends others (suc n) i ps lowest rest d = elim (visit-cases i ps lowest) [
  | inl e ↦ rw e (pass-Descends others n (i + 1) ps lowest rest (rw e at d))
  | inr (p, g, s, le, e) ↦ rw e (
    le,
    pass-Descends others n (i + 1) (others i (modify ps i (λ q. record q { state = running })))
        p.priority rest (rw e at d),
  )
]

-- Over any number of rounds of scheduler(), whatever processes and other CPUs do to the table in
-- between, the priority numbers of the processes that it chooses never rise: once a process with
-- number `q` has run, no process with a larger number is ever chosen again.
pub scheduler_loop-Descends :
    (others : ℕ → List Proc → List Proc) (between : List Proc → List Proc) (nproc rounds : ℕ)
    (ps : List Proc) (lowest : ℤ)
    → Descends lowest (scheduler_loop others between nproc rounds ps lowest)
unfolding scheduler_loop
scheduler_loop-Descends others between nproc zero ps lowest = tt
scheduler_loop-Descends others between nproc (suc rounds) ps lowest =
    let r = pass others nproc 0 ps lowest in
    pass-Descends others nproc 0 ps lowest
      (scheduler_loop others between nproc rounds (between r.0) r.1)
      (scheduler_loop-Descends others between nproc rounds (between r.0) r.1)
