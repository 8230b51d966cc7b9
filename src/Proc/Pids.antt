-- ===== src/Proc/Pids.antt =====
-- allocproc(): which slot it takes, and that no two live processes share a pid.
use large_project.Prelude.{
  ℕ, zero, suc, ◌+◌, ◌<◌, ◌≡◌, ◌≢◌, refl, sym, ap, ◌∙◌, subst, ◌⊎◌, inl, inr, true, false, List, [],
  ◌∷◌, Option, none, some, get_elem?, arith, Bool-cases,
}
use large_project.Prelude.Int.{pos}
use large_project.Proc.{modify, find_unused}
use large_project.Proc.Table.{Procstate, unused, embryo, state_eq, Proc}
use large_project.Proc.Reap.{modify-some}

-- A slot that allocproc() has only passed over.
abbrev pub passed : Proc → Proc
passed p = record p { priority = pos 0 }

-- A slot that it has taken.
abbrev pub taken : ℕ → Proc → Proc
taken pid p = record p { priority = pos 0; state = embryo; pid = pid }

-- What allocproc() finds: the first UNUSED slot, at `j`, or none.
abbrev pub FindsSlot : ℕ → ℕ → List Proc → List Proc → Option ℕ → Type 0
FindsSlot pid i ps qs none =
    (k : ℕ) (p : Proc)
    → get_elem? ps k ≡ some p
    → (p.state ≢ unused) × (get_elem? qs k ≡ some (passed p))
FindsSlot pid i ps qs (some n) =
    (j : ℕ) × (p : Proc) × (n ≡ i + j)
    × (get_elem? ps j ≡ some p)
    × (p.state ≡ unused)
    × (get_elem? qs j ≡ some (taken pid p))
    × ((k : ℕ) (q : Proc)
        → k < j
        → get_elem? ps k ≡ some q
        → (q.state ≢ unused) × (get_elem? qs k ≡ some (passed q)))
    × ((k : ℕ) → j < k → get_elem? qs k ≡ get_elem? ps k)

state_eq-unused : (s : Procstate) → state_eq s unused ≡ true → s ≡ unused
state_eq-unused s h = ground arith

state_eq-used : (s : Procstate) → state_eq s unused ≡ false → s ≢ unused
state_eq-used s h e = ground arith

FindsSlot-later :
    (pid i : ℕ) (p : Proc) (ps qs : List Proc) (r : Option ℕ)
    → p.state ≢ unused
    → FindsSlot pid (i + 1) ps qs r
    → FindsSlot pid i (p ∷ ps) (passed p ∷ qs) r
FindsSlot-later pid i p ps qs none ne f = at_slot
  where
    at_slot :
        (k : ℕ) (q : Proc)
        → get_elem? (p ∷ ps) k ≡ some q
        → (q.state ≢ unused) × (get_elem? (passed p ∷ qs) k ≡ some (passed q))
    at_slot zero q g = (λ u. ne (ground (arith, g, u)), ground (arith, g))
    at_slot (suc k) q g = f k q g
FindsSlot-later pid i p ps qs (some n) ne (j, q, e, g, u, g', before, behind) =
    (suc j, q, omega arith, g, u, g', before', behind')
  where
    before' :
        (k : ℕ) (q : Proc)
        → k < suc j
        → get_elem? (p ∷ ps) k ≡ some q
        → (q.state ≢ unused) × (get_elem? (passed p ∷ qs) k ≡ some (passed q))
    before' zero q lt g = (λ u. ne (ground (arith, g, u)), ground (arith, g))
    before' (suc k) q lt g = before k q (omega arith) g

    behind' : (k : ℕ) → suc j < k → get_elem? (passed p ∷ qs) k ≡ get_elem? (p ∷ ps) k
    behind' zero lt = absurd (omega arith)
    behind' (suc k) lt = behind k (omega arith)

FindsSlot-here :
    (pid i : ℕ) (p : Proc) (ps : List Proc)
    → p.state ≡ unused
    → FindsSlot pid i (p ∷ ps) (taken pid p ∷ ps) (some i)
FindsSlot-here pid i p ps u =
    (zero, p, omega arith, refl, u, refl, λ k q lt g. absurd (omega arith), behind)
  where
    behind : (k : ℕ) → 0 < k → get_elem? (taken pid p ∷ ps) k ≡ get_elem? (p ∷ ps) k
    behind zero lt = absurd (omega arith)
    behind (suc k) lt = refl

-- allocproc() takes the first UNUSED slot: it becomes EMBRYO under the given pid, every slot behind it
-- is as it was, and every slot before it, whatever process it holds, has lost its priority and
-- nothing else. It finds no slot exactly if none is UNUSED, and then all have lost their priority.
pub find_unused-FindsSlot :
    (ps : List Proc) (pid i : ℕ)
    → FindsSlot pid i ps (find_unused ps pid i).0 (find_unused ps pid i).1
unfolding find_unused
find_unused-FindsSlot [] pid i = λ k p g. absurd (cc g)
find_unused-FindsSlot (p ∷ ps) pid i = elim (Bool-cases (state_eq p.state unused)) [
  | inl u ↦ rw u (FindsSlot-here pid i p ps (state_eq-unused p.state u))
  | inr u ↦ rw u (
      FindsSlot-later pid i p ps (find_unused ps pid (i + 1)).0 (find_unused ps pid (i + 1)).1
        (state_eq-used p.state u) (find_unused-FindsSlot ps pid (i + 1)))
]

-- Live processes have pids below `n`, all different.
pub record UniquePids (n : ℕ) (ps : List Proc) : Type 0 where
  pub below : (k : ℕ) (p : Proc) → get_elem? ps k ≡ some p → p.state ≢ unused → p.pid < n
  pub distinct :
      (j k : ℕ) (p q : Proc)
      → get_elem? ps j ≡ some p
      → get_elem? ps k ≡ some q
      → p.state ≢ unused
      → q.state ≢ unused
      → p.pid ≡ q.pid
      → j ≡ k

-- A change of the table that gives no slot a new pid, and no life.
abbrev pub NoNewPid : List Proc → List Proc → Type 0
NoNewPid ps qs =
    (k : ℕ) (q : Proc)
    → get_elem? qs k ≡ some q
    → q.state ≢ unused
    → (p : Proc) × (get_elem? ps k ≡ some p) × (p.state ≢ unused) × (p.pid ≡ q.pid)

pub NoNewPid-UniquePids :
    (n : ℕ) (ps qs : List Proc) → NoNewPid ps qs → UniquePids n ps → UniquePids n qs
NoNewPid-UniquePids n ps qs f v = record {
  below = λ k q g u. let (p, g', u', e) = f k q g u in subst (λ t. t < n) e (v.below k p g' u');
  distinct = λ j k p q g h u w e.
      let (p', g', u', e') = f j p g u in
      let (q', h', w', d') = f k q h w in v.distinct j k p' q' g' h' u' w' (e' ∙ e ∙ sym d');
}

-- A live slot of `qs` was live in `ps` with its pid, or is the one that got the pid `n`.
abbrev OldOrNew : ℕ → ℕ → List Proc → List Proc × Option ℕ → Type 0
OldOrNew n i ps r =
    (k : ℕ) (q : Proc)
    → get_elem? r.0 k ≡ some q
    → q.state ≢ unused
    → ((p : Proc) × (get_elem? ps k ≡ some p) × (p.state ≢ unused) × (p.pid ≡ q.pid))
      ⊎ ((q.pid ≡ n) × (r.1 ≡ some (i + k)))

OldOrNew-here :
    (n i : ℕ) (p : Proc) (ps : List Proc) → OldOrNew n i (p ∷ ps) (taken n p ∷ ps, some i)
OldOrNew-here n i p ps zero q g u = inr (ground (arith, g), ap some (omega arith))
OldOrNew-here n i p ps (suc k) q g u = inl (q, g, u, refl)

OldOrNew-later :
    (n i : ℕ) (p : Proc) (ps : List Proc) (r : List Proc × Option ℕ)
    → p.state ≢ unused
    → OldOrNew n (i + 1) ps r
    → OldOrNew n i (p ∷ ps) (passed p ∷ r.0, r.1)
OldOrNew-later n i p ps r ne f zero q g u = inl (p, refl, ne, ground (arith, g))
OldOrNew-later n i p ps r ne f (suc k) q g u = elim (f k q g u) [
  | inl old ↦ inl old
  | inr (a, b) ↦ inr (a, b ∙ ap some (omega arith))
]

find_unused-OldOrNew : (ps : List Proc) (n i : ℕ) → OldOrNew n i ps (find_unused ps n i)
unfolding find_unused
find_unused-OldOrNew [] n i = λ k q g. absurd (cc g)
find_unused-OldOrNew (p ∷ ps) n i = elim (Bool-cases (state_eq p.state unused)) [
  | inl u ↦ rw u (OldOrNew-here n i p ps)
  | inr u ↦ rw u (
      OldOrNew-later n i p ps (find_unused ps n (i + 1)) (state_eq-used p.state u)
        (find_unused-OldOrNew ps n (i + 1)))
]

pub find_unused-UniquePids :
    (n : ℕ) (ps : List Proc) → UniquePids n ps → UniquePids (n + 1) (find_unused ps n 0).0
find_unused-UniquePids n ps v = record {
  below = λ k q g u. elim (find_unused-OldOrNew ps n 0 k q g u) [
    | inl (p, g', u', e) ↦ omega (arith, v.below k p g' u', e)
    | inr (e, _) ↦ omega (arith, e)
  ];
  distinct = λ j k p q g h u w e.
      apart j k p q e (find_unused-OldOrNew ps n 0 j p g u) (find_unused-OldOrNew ps n 0 k q h w);
}
  where
    Case : ℕ → Proc → Type 0
    Case k q =
        ((p : Proc) × (get_elem? ps k ≡ some p) × (p.state ≢ unused) × (p.pid ≡ q.pid))
        ⊎ ((q.pid ≡ n) × ((find_unused ps n 0).1 ≡ some (0 + k)))

    apart : (j k : ℕ) (p q : Proc) → p.pid ≡ q.pid → Case j p → Case k q → j ≡ k
    apart j k p q e (inl (p', g, u, a)) (inl (q', h, w, b)) =
        v.distinct j k p' q' g h u w (a ∙ e ∙ sym b)
    apart j k p q e (inl (p', g, u, a)) (inr (b, _)) =
        absurd (omega (arith, v.below j p' g u, a, b, e))
    apart j k p q e (inr (a, _)) (inl (q', h, w, b)) =
        absurd (omega (arith, v.below k q' h w, a, b, e))
    apart j k p q e (inr (_, a)) (inr (_, b)) = ground (arith, a, b)

pub find_unused-none :
    (n : ℕ) (ps : List Proc) → (find_unused ps n 0).1 ≡ none → NoNewPid ps (find_unused ps n 0).0
find_unused-none n ps e k q g u = elim (find_unused-OldOrNew ps n 0 k q g u) [
  | inl old ↦ old
  | inr (_, b) ↦ absurd (cc (sym e ∙ b))
]

pub modify-NoNewPid :
    (ps : List Proc) (i : ℕ) (f : Proc → Proc)
    → ((p : Proc)
        → get_elem? ps i ≡ some p
        → (f p).state ≢ unused
        → (p.state ≢ unused) × (p.pid ≡ (f p).pid))
    → NoNewPid ps (modify ps i f)
modify-NoNewPid ps i f keep k q g u =
    let (p, h, c) = modify-some ps i k f g in
    elim c [
      | inl (a, b) ↦
          let (w, e) = keep p (ap (get_elem? ps) a ∙ h) (λ z. u (ap (λ t. t.state) b ∙ z)) in
          (p, h, w, e ∙ ap (λ t. t.pid) (sym b))
      | inr (a, b) ↦ (p, h, λ z. u (ap (λ t. t.state) b ∙ z), ap (λ t. t.pid) (sym b))
    ]
