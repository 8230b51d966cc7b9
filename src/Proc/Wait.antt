-- ===== src/Proc/Wait.antt =====
-- wait(): what its scan finds, and that it sleeps only when it may.
use large_project.Prelude.{
  ℕ, zero, suc, ◌≡◌, ◌≢◌, ◌<◌, refl, sym, ap, ◌∙◌, subst, ◌⊎◌, inl, inr, true, false, List, [], ◌∷◌,
  none, some, get_elem?, arith, Bool-cases,
}
use large_project.Prelude.Outcome.{ok, >>=-eq-ok}
use large_project.Proc.{Env, Ptable, modify}
use large_project.Proc.Table.{
  Procstate, unused, zombie, sleeping, state_eq, Chan, proc_chan, Proc, is_child,
}
use large_project.Proc.Life.{
  Scan, no_child, some_child, reaped, havekids, reap, scan, sleeps, wait, wait_after,
}
use large_project.Proc.Reap.{Waiting, ZombieChild, NoneMissed, modify-some}
use large_project.Proc.Exit.{is_child-parent, is_child-false}

-- Slot `j` is free, and the other slots are as they were.
abbrev pub Freed : List Proc → List Proc → ℕ → Type 0
Freed ps ps' j =
    ((p : Proc) × (get_elem? ps' j ≡ some p)
      × (p.state ≡ unused)
      × (p.pid ≡ 0)
      × (p.parent ≡ none)
      × (p.kstack ≡ 0)
      × (p.killed ≡ false)
      × (p.name ≡ []))
    × ((k : ℕ) → k ≢ j → get_elem? ps' k ≡ get_elem? ps k)

-- No slot before `j` holds a zombie child of the process in slot `cur`.
abbrev pub NoneBefore : ℕ → List Proc → ℕ → Type 0
NoneBefore cur ps j =
    (i : ℕ) (q : Proc) → i < j → get_elem? ps i ≡ some q → q.parent ≡ some cur → q.state ≢ zombie

-- What the result of a scan by the process in slot `cur` says of the table before and after.
abbrev pub Finds : ℕ → List Proc → List Proc → Scan → Type 0
Finds cur ps ps' no_child =
    (ps' ≡ ps) × ((j : ℕ) (p : Proc) → get_elem? ps j ≡ some p → p.parent ≢ some cur)
Finds cur ps ps' some_child =
    (ps' ≡ ps)
    × ((j : ℕ) (p : Proc) → get_elem? ps j ≡ some p → p.parent ≡ some cur → p.state ≢ zombie)
    × (j : ℕ) × (p : Proc) × (get_elem? ps j ≡ some p)
    × (p.parent ≡ some cur)
Finds cur ps ps' (reaped pid kstack pgdir) =
    (j : ℕ) × (p : Proc) × (get_elem? ps j ≡ some p)
    × (p.parent ≡ some cur)
    × (p.state ≡ zombie)
    × (pid ≡ p.pid)
    × (kstack ≡ p.kstack)
    × (pgdir ≡ p.pgdir)
    × Freed ps ps' j
    × NoneBefore cur ps j

Freed-cons :
    (p : Proc) (ps ps' : List Proc) (j : ℕ) → Freed ps ps' j → Freed (p ∷ ps) (p ∷ ps') (suc j)
Freed-cons p ps ps' j (slot, others) = (slot, at_slot)
  where
    at_slot : (k : ℕ) → k ≢ suc j → get_elem? (p ∷ ps') k ≡ get_elem? (p ∷ ps) k
    at_slot zero ne = refl
    at_slot (suc k) ne = others k (λ e. ne (ap suc e))

reap-Freed : (p : Proc) (ps : List Proc) → Freed (p ∷ ps) (reap p ∷ ps) zero
reap-Freed p ps = ((reap p, refl, refl, refl, refl, refl, refl, refl), at_slot)
  where
    at_slot : (k : ℕ) → k ≢ zero → get_elem? (reap p ∷ ps) k ≡ get_elem? (p ∷ ps) k
    at_slot zero ne = absurd (ne refl)
    at_slot (suc k) ne = refl

NoneBefore-cons :
    (cur : ℕ) (p : Proc) (ps : List Proc) (j : ℕ)
    → (p.parent ≡ some cur → p.state ≢ zombie)
    → NoneBefore cur ps j
    → NoneBefore cur (p ∷ ps) (suc j)
NoneBefore-cons cur p ps j alive before zero q lt g h = ground (arith, alive, g, h)
NoneBefore-cons cur p ps j alive before (suc i) q lt g h = before i q (omega arith) g h

Finds-other :
    (cur : ℕ) (p : Proc) (ps ps' : List Proc) (r : Scan)
    → p.parent ≢ some cur
    → Finds cur ps ps' r
    → Finds cur (p ∷ ps) (p ∷ ps') r
Finds-other cur p ps ps' no_child ne (e, f) = (ap (λ t. p ∷ t) e, at_slot)
  where
    at_slot : (j : ℕ) (q : Proc) → get_elem? (p ∷ ps) j ≡ some q → q.parent ≢ some cur
    at_slot zero q g = ground (arith, g)
    at_slot (suc j) q g = f j q g
Finds-other cur p ps ps' some_child ne (e, f, j, q, g, h) =
    (ap (λ t. p ∷ t) e, at_slot, suc j, q, g, h)
  where
    at_slot :
        (j : ℕ) (q : Proc) → get_elem? (p ∷ ps) j ≡ some q → q.parent ≡ some cur → q.state ≢ zombie
    at_slot zero q g h = absurd (ground (arith, g, h))
    at_slot (suc j) q g h = f j q g h
Finds-other cur p ps ps' (reaped pid kstack pgdir) ne (j, q, g, h, s, v1, v2, v3, e, first) = (
  suc j,
  q,
  g,
  h,
  s,
  v1,
  v2,
  v3,
  Freed-cons p ps ps' j e,
  NoneBefore-cons cur p ps j (λ h. absurd (ne h)) first,
)

Finds-child :
    (cur : ℕ) (p : Proc) (ps ps' : List Proc) (r : Scan)
    → p.parent ≡ some cur
    → p.state ≢ zombie
    → Finds cur ps ps' r
    → Finds cur (p ∷ ps) (p ∷ ps') (havekids r)
Finds-child cur p ps ps' no_child mine alive (e, f) =
    (ap (λ t. p ∷ t) e, at_slot, zero, p, refl, mine)
  where
    at_slot :
        (j : ℕ) (q : Proc) → get_elem? (p ∷ ps) j ≡ some q → q.parent ≡ some cur → q.state ≢ zombie
    at_slot zero q g h = ground (arith, g)
    at_slot (suc j) q g h = absurd (f j q g h)
Finds-child cur p ps ps' some_child mine alive (e, f, j, q, g, h) =
    (ap (λ t. p ∷ t) e, at_slot, zero, p, refl, mine)
  where
    at_slot :
        (j : ℕ) (q : Proc) → get_elem? (p ∷ ps) j ≡ some q → q.parent ≡ some cur → q.state ≢ zombie
    at_slot zero q g h = ground (arith, g)
    at_slot (suc j) q g h = f j q g h
Finds-child cur p ps ps' (reaped pid kstack pgdir) mine alive
      (j, q, g, h, s, v1, v2, v3, e, first) =
    (
      suc j,
      q,
      g,
      h,
      s,
      v1,
      v2,
      v3,
      Freed-cons p ps ps' j e,
      NoneBefore-cons cur p ps j (λ h. alive) first,
    )

state_eq-zombie : (s : Procstate) → state_eq s zombie ≡ true → s ≡ zombie
state_eq-zombie s h = ground arith

state_eq-not-zombie : (s : Procstate) → state_eq s zombie ≡ false → s ≢ zombie
state_eq-not-zombie s h e = ground arith

-- The scan of wait() says that the process has no child, or that it has children and none is a
-- zombie, and then leaves the table alone; or it has freed the slot of its first zombie child, which is
-- UNUSED and has no pid, parent, kernel stack, name or kill mark, while every other slot is as it was,
-- and returns the pid, kernel stack and page table that this slot held.
pub scan-Finds : (cur : ℕ) (ps : List Proc) → Finds cur ps (scan cur ps).0 (scan cur ps).1
unfolding scan
scan-Finds cur [] = (refl, λ j p g. cc)
scan-Finds cur (p ∷ ps) = elim (Bool-cases (is_child cur p)) [
  | inl c ↦ elim (Bool-cases (state_eq p.state zombie)) [
    | inl z ↦
        rw (c, z)
          (
            zero,
            p,
            refl,
            is_child-parent cur p c,
            state_eq-zombie p.state z,
            refl,
            refl,
            refl,
            reap-Freed p ps,
            λ i q lt g h. absurd (omega arith),
          )
    | inr z ↦
        rw (c, z)
          (Finds-child cur p ps (scan cur ps).0 (scan cur ps).1 (is_child-parent cur p c)
            (state_eq-not-zombie p.state z) (scan-Finds cur ps))
  ]
  | inr c ↦ rw c (
      Finds-other cur p ps (scan cur ps).0 (scan cur ps).1 (is_child-false cur p c)
        (scan-Finds cur ps))
]

sleep-ZombieChild :
    (ps : List Proc) (cur i j : ℕ) (c : Chan)
    → ZombieChild (modify ps cur (λ p. record p { chan = c; state = sleeping })) i j
    → ZombieChild ps i j
sleep-ZombieChild ps cur i j c (p, e, s, h) =
    let (q, g, f) = modify-some ps cur j (λ r. record r { chan = c; state = sleeping }) e in
    elim f [
      | inl (a, b) ↦ absurd (ground (arith, b))
      | inr (a, b) ↦ (q, g, ground (arith, b), ground (arith, b))
    ]

sleep-Waiting :
    (ps : List Proc) (cur i : ℕ) (c : Chan)
    → Waiting (modify ps cur (λ p. record p { chan = c; state = sleeping })) i
    → (cur ≡ i) ⊎ Waiting ps i
sleep-Waiting ps cur i c (p, e, s, h) =
    let (q, g, f) = modify-some ps cur i (λ r. record r { chan = c; state = sleeping }) e in
    elim f [ inl (a, b) ↦ inl a | inr (a, b) ↦ inr (q, g, ground (arith, b), ground (arith, b)) ]

wait_after-sleeps :
    (env : Env) (cur : ℕ) (curproc : Proc) (ps : List Proc) (t t' : Ptable) (s s' : Env.State env)
    (r : Scan) (c : Chan)
    → wait_after env cur curproc ps t s r ≡ ok (sleeps c, t', s')
    → (r ≡ some_child) × (curproc.killed ≡ false) × (t' ≡ t) × (s' ≡ s) × (c ≡ proc_chan cur)
unfolding wait_after
wait_after-sleeps env cur curproc ps t t' s s' (reaped pid kstack pgdir) c h =
    let (s1, e1, h1) = >>=-eq-ok (Env.kfree env kstack s) _ h in
    let (s2, e2, h2) = >>=-eq-ok (Env.freevm env pgdir s1) _ h1 in absurd cc
wait_after-sleeps env cur curproc ps t t' s s' no_child c h = absurd cc
wait_after-sleeps env cur curproc ps t t' s s' some_child c h = elim (Bool-cases curproc.killed) [
  | inl k ↦ let h' = rw k at h in absurd (cc h')
  | inr k ↦ let h' = rw k at h in (refl, k, cc h', cc h', cc h')
]

-- Where wait() goes to sleep, the state is unchanged, the process has a child and has not been
-- killed, it sleeps on its own address, and once it sleeps, no process waits beside a zombie child if
-- none did before.
pub wait-sleeps :
    (env : Env) (cur : ℕ) (curproc : Proc) (t t' : Ptable) (s s' : Env.State env) (c : Chan)
    → wait env cur curproc t s ≡ ok (sleeps c, t', s')
    → (t' ≡ t)
      × (s' ≡ s)
      × (c ≡ proc_chan cur)
      × (curproc.killed ≡ false)
      × ((j : ℕ) × (p : Proc) × (get_elem? t.table j ≡ some p) × (p.parent ≡ some cur))
      × (NoneMissed t.table
          → NoneMissed (modify t.table cur (λ p. record p { chan = c; state = sleeping })))
unfolding wait
wait-sleeps env cur curproc t t' s s' c h =
    let (found, alive, et, es, ec) =
      wait_after-sleeps env cur curproc (scan cur t.table).0 t t' s s' (scan cur t.table).1 c h in
    let (e, none_dead, j, p, g, mine) =
      subst (Finds cur t.table (scan cur t.table).0) found (scan-Finds cur t.table) in
    (
      et,
      es,
      ec,
      alive,
      (j, p, g, mine),
      λ v i k w y.
          let y' = sleep-ZombieChild t.table cur i k c y in
          elim (sleep-Waiting t.table cur i c w) [
            | inl a ↦ none_dead k y'.0 y'.1 (y'.2 ∙ ap some (sym a)) y'.3
            | inr w' ↦ v i k w' y'
          ],
    )
