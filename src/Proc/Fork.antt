-- ===== src/Proc/Fork.antt =====
-- allocproc(): the slot, the pid and the kernel stack that it gives to fork().
use large_project.Prelude.{
  ℕ, ◌+◌, ◌%◌, ◌<◌, ◌≡◌, ◌≢◌, refl, sym, ap, ◌∙◌, subst, ◌⊎◌, inl, inr, List, Option, none, some,
  ◌==◌, get_elem?, arith, Bool-cases, Option-cases,
}
use large_project.Prelude.Param.{uint_mod}
use large_project.Proc.{Env, Ptable, modify, find_unused, allocproc, give_kstack}
use large_project.Proc.Table.{unused, embryo, Proc}
use large_project.Proc.Reap.{get_elem?-modify}
use large_project.Proc.Pids.{
  UniquePids, NoNewPid-UniquePids, modify-NoNewPid, find_unused-UniquePids, find_unused-FindsSlot,
  find_unused-none, FindsSlot, taken,
}

-- The largest int.
abbrev pub int_max : ℕ
int_max = 0x7FFFFFFF

-- No slot is UNUSED.
abbrev pub IsFull : List Proc → Type 0
IsFull ps = (j : ℕ) (p : Proc) → get_elem? ps j ≡ some p → p.state ≢ unused

-- What allocproc() keeps of the slot that it takes.
abbrev pub Taken : ℕ → Proc → ℕ → Proc → Type 0
Taken pid q kstack p =
    (q.state ≡ unused)
    × (p.state ≡ embryo)
    × (p.pid ≡ pid)
    × (p.kstack ≢ 0)
    × (p.kstack ≡ kstack)
    × (p.ofile ≡ q.ofile)

module _ (env : Env) where
  open env use {State, kalloc}

  -- allocproc() returns a slot that was UNUSED and is EMBRYO, with the kernel stack that kalloc() gave
  -- and the pid that was next; or no slot was UNUSED; or kalloc() gave no stack.
  abbrev pub Allocated : Ptable → State → Option ℕ × Ptable × State → Type 0
  Allocated t s (none, t1, s1) =
      UniquePids t1.nextpid t1.table
      × ((IsFull t.table × (s1 ≡ s)) ⊎ (((kalloc s).0 ≡ 0) × (s1 ≡ (kalloc s).1)))
  Allocated t s (some i, t1, s1) =
      UniquePids t1.nextpid t1.table
      × (s1 ≡ (kalloc s).1)
      × ((p : Proc) × (q : Proc) × (get_elem? t1.table i ≡ some p)
          × (get_elem? t.table i ≡ some q)
          × Taken t.nextpid q (kalloc s).0 p)

  no_wrap : (n : ℕ) → n < int_max → n + 1 ≡ (n + 1) % uint_mod
  no_wrap n lt = omega arith

  give_kstack-Allocated :
      (t : Ptable) (s : State) (ps : List Proc) (i : ℕ) (k : ℕ × State) (q : Proc)
      → k ≡ kalloc s
      → t.nextpid < int_max
      → UniquePids (t.nextpid + 1) ps
      → get_elem? ps i ≡ some (taken t.nextpid q)
      → get_elem? t.table i ≡ some q
      → q.state ≡ unused
      → Allocated t s (give_kstack env t ps i k)
  unfolding give_kstack
  give_kstack-Allocated t s ps i (kstack, s1) q from lt v g g0 free =
      elim (Bool-cases (kstack == 0)) [
        | inl z ↦ rw z (
          NoNewPid-UniquePids _ ps _
              (modify-NoNewPid ps i (λ p. record p { kstack = kstack; state = unused })
                (λ p h u. absurd (u refl)))
              next,
          inr (ap (λ r. r.0) (sym from) ∙ ground (arith, z), ap (λ r. r.1) from),
        )
        | inr z ↦ rw z (
          NoNewPid-UniquePids _ ps _
              (modify-NoNewPid ps i (λ p. record p { kstack = kstack }) (λ p h u. (u, refl))) next,
          ap (λ r. r.1) from,
          (
            record (taken t.nextpid q) { kstack = kstack },
            q,
            slot,
            g0,
            (free, refl, refl, ground (arith, z), ap (λ r. r.0) from, refl),
          ),
        )
      ]
    where
      next : UniquePids ((t.nextpid + 1) % uint_mod) ps
      next = subst (λ n. UniquePids n ps) (no_wrap t.nextpid lt) v

      slot :
          get_elem? (modify ps i (λ p. record p { kstack = kstack })) i
          ≡ some (record (taken t.nextpid q) { kstack = kstack })
      slot = ground (arith, g, get_elem?-modify ps i i (λ p. record p { kstack = kstack }))

  taken_slot :
      (t : Ptable) (i : ℕ)
      → (find_unused t.table t.nextpid 0).1 ≡ some i
      → (q : Proc) × (get_elem? (find_unused t.table t.nextpid 0).0 i ≡ some (taken t.nextpid q))
        × (get_elem? t.table i ≡ some q)
        × (q.state ≡ unused)
  taken_slot t i e =
      let (j, q, n, g, u, g', before, behind) =
        subst (FindsSlot t.nextpid 0 t.table (find_unused t.table t.nextpid 0).0) e
          (find_unused-FindsSlot t.table t.nextpid 0) in
      let same : i ≡ j = omega arith in
      (
        q,
        ap (get_elem? (find_unused t.table t.nextpid 0).0) same ∙ g',
        ap (get_elem? t.table) same ∙ g,
        u,
      )

  find_unused-IsFull : (t : Ptable) → (find_unused t.table t.nextpid 0).1 ≡ none → IsFull t.table
  find_unused-IsFull t e j p g =
      (subst (FindsSlot t.nextpid 0 t.table (find_unused t.table t.nextpid 0).0) e
        (find_unused-FindsSlot t.table t.nextpid 0) j p g).0

  pub allocproc-Allocated :
      (t : Ptable) (s : State)
      → t.nextpid < int_max
      → UniquePids t.nextpid t.table
      → Allocated t s (allocproc env t s)
  unfolding allocproc
  allocproc-Allocated t s lt v = elim (Option-cases (find_unused t.table t.nextpid 0).1) [
    | inl e ↦
        rw (e, allocproc)
          (
            NoNewPid-UniquePids t.nextpid t.table (find_unused t.table t.nextpid 0).0
                (find_unused-none t.nextpid t.table e) v,
            inl (find_unused-IsFull t e, refl),
          )
    | inr (i, e) ↦
        let (q, g, g0, free) = taken_slot t i e in
        rw (e, allocproc)
          (give_kstack-Allocated t s (find_unused t.table t.nextpid 0).0 i (kalloc s) q refl lt
            (find_unused-UniquePids t.nextpid t.table v) g g0 free)
  ]
