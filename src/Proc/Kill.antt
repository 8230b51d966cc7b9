-- ===== src/Proc/Kill.antt =====
-- kill(): which process it marks.
use large_project.Prelude.{
  ℕ, zero, suc, ◌≡◌, ◌≢◌, refl, ap, inl, inr, Bool, true, false, List, [], ◌∷◌, some, ◌==◌,
  if◌then◌else◌, get_elem?, arith, Bool-cases,
}
use large_project.Proc.{modify, find_unused}
use large_project.Proc.Table.{unused, embryo, sleeping, runnable, state_eq, Proc, kill}
use large_project.Proc.Pids.{taken}

-- kill() of a pid that no process has changes nothing and fails. If some slot has it, the first such
-- slot is marked, and made RUNNABLE if it slept; all else is kept. Slots that are UNUSED count too.
abbrev pub Killed : ℕ → List Proc → List Proc × Bool → Type 0
Killed pid ps (qs, false) = (qs ≡ ps) × ((k : ℕ) (p : Proc) → get_elem? ps k ≡ some p → p.pid ≢ pid)
Killed pid ps (qs, true) =
    (j : ℕ) × (p : Proc) × (get_elem? ps j ≡ some p)
    × (p.pid ≡ pid)
    × (qs
        ≡ modify ps j (λ q. record q {
          killed = true;
          state = if state_eq q.state sleeping then runnable else q.state;
        }))

Killed-later :
    (pid : ℕ) (p : Proc) (ps : List Proc) (r : List Proc × Bool)
    → p.pid ≢ pid
    → Killed pid ps r
    → Killed pid (p ∷ ps) (p ∷ r.0, r.1)
Killed-later pid p ps (qs, false) ne (e, f) = (ap (λ t. p ∷ t) e, at_slot)
  where
    at_slot : (k : ℕ) (q : Proc) → get_elem? (p ∷ ps) k ≡ some q → q.pid ≢ pid
    at_slot zero q g h = ne (ground (arith, g, h))
    at_slot (suc k) q g h = f k q g h
Killed-later pid p ps (qs, true) ne (j, q, g, e, f) = (suc j, q, g, e, ap (λ t. p ∷ t) f)

-- kill() of a pid that no slot has fails and changes nothing. Otherwise it succeeds, and one slot with
-- the pid is marked, and made RUNNABLE if it slept; all else is kept.
pub kill-Killed : (pid : ℕ) (ps : List Proc) → Killed pid ps (kill pid ps)
unfolding kill
kill-Killed pid [] = (refl, λ k p g. absurd (cc g))
kill-Killed pid (p ∷ ps) = elim (Bool-cases (p.pid == pid)) [
  | inl e ↦ rw e (zero, p, refl, ground (arith, e), refl)
  | inr e ↦ rw e (Killed-later pid p ps (kill pid ps) (ground (arith, e)) (kill-Killed pid ps))
]

-- The pid of an UNUSED slot that wait() has freed is 0. If slot 0 is such a slot, kill(0) succeeds
-- and marks it, and the next process that allocproc() makes there is born killed.
pub kill_zero :
    (p : Proc) (ps : List Proc) (pid : ℕ)
    → p.state ≡ unused
    → p.pid ≡ 0
    → let r = kill 0 (p ∷ ps) in
      let a = find_unused r.0 pid 0 in
      (r.1 ≡ true)
      × (a.1 ≡ some 0)
      × (q : Proc) × (get_elem? a.0 0 ≡ some q)
      × (q.state ≡ embryo)
      × (q.killed ≡ true)
unfolding kill find_unused
kill_zero p ps pid u z =
    (ground arith, ground arith, record (taken pid p) { killed = true }, ground arith, refl, refl)
