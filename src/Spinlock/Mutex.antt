-- ===== src/Spinlock/Mutex.antt =====
-- Mutual exclusion: any number of CPUs that take and release one lock in any order.
use large_project.Prelude.{
  ℕ, ◌≡◌, ◌≢◌, refl, sym, ap, subst, Bool, true, false, none, some, ◌==◌, arith, Bool-cases, ◌⊎◌,
  inl, inr,
}
use large_project.Prelude.Int.{pos}
use large_project.Prelude.Outcome.{ok, panic}
use large_project.Disk.{update}
use large_project.Spinlock.{Cpu, Spinlock, acquire, release, initlock}
use large_project.Spinlock.Nesting.{
  IsNested, pushcli-IsNested, acquire-free, acquire-taken, release-held,
}

-- The lock, every CPU, and whether each is between its acquire() and its release().
pub record System : Type 0 where
  pub lock : Spinlock
  pub cpus : ℕ → Cpu
  pub inside : ℕ → Bool

pub data Step (s s' : System) : Type 0 where
  acquires :
      (i : ℕ) (c : Cpu)
      → s.inside i ≡ false
      → acquire i s.lock (s.cpus i) ≡ ok (some (s'.lock, c))
      → s'.cpus ≡ update s.cpus i c
      → s'.inside ≡ update s.inside i true
      → Step s s'
  releases :
      (i : ℕ) (c : Cpu)
      → s.inside i ≡ true
      → release i s.lock (s.cpus i) ≡ ok (s'.lock, c)
      → s'.cpus ≡ update s.cpus i c
      → s'.inside ≡ update s.inside i false
      → Step s s'

abbrev depth_of : Bool → ℕ
depth_of true = 1
depth_of false = 0

-- The lock names the one CPU that is inside, or none is.
abbrev pub Owned : System → Type 0
Owned s =
    ((s.lock ≡ initlock) × ((i : ℕ) → s.inside i ≡ false))
    ⊎ ((o : ℕ) × (s.lock ≡ record { locked = true; cpu = some o })
        × ((i : ℕ) → s.inside i ≡ (o == i)))

pub record Inv (s : System) : Type 0 where
  pub owned : Owned s
  pub nested : (i : ℕ) → IsNested (depth_of (s.inside i)) (s.cpus i)

pub data Reach (s : System) : System → Type 0 where
  here : Reach s s
  next : {t u : System} → Reach s t → Step t u → Reach s u

acquires-Inv :
    (s s' : System) (i : ℕ) (c : Cpu)
    → Inv s
    → s.inside i ≡ false
    → acquire i s.lock (s.cpus i) ≡ ok (some (s'.lock, c))
    → s'.cpus ≡ update s.cpus i c
    → s'.inside ≡ update s.inside i true
    → Inv s'
unfolding initlock
acquires-Inv s s' i c v out e p q = elim v.owned [
  | inl (free, none_in) ↦
      let taken = acquire-free 0 i s.lock (s.cpus i) outside (ap (λ l. l.locked) free) in
      record {
        owned = inr (i, ground (arith, e, taken), λ j. rw q (ground (arith, none_in j)));
        nested = λ j.
            rw (p, q)
              (elim (Bool-cases (i == j)) [
                | inl t ↦
                    rw t (subst (IsNested 1) (ground (arith, e, taken)) (pushcli-IsNested outside))
                | inr f ↦ rw f (v.nested j)
              ]);
      }
  | inr (o, held, ins) ↦
      absurd (ground (arith, e, acquire-taken 0 i o s.lock (s.cpus i) outside held, ins i))
]
  where
    outside : IsNested 0 (s.cpus i)
    outside = subst (λ b. IsNested (depth_of b) (s.cpus i)) out (v.nested i)

releases-Inv :
    (s s' : System) (i : ℕ) (c : Cpu)
    → Inv s
    → s.inside i ≡ true
    → release i s.lock (s.cpus i) ≡ ok (s'.lock, c)
    → s'.cpus ≡ update s.cpus i c
    → s'.inside ≡ update s.inside i false
    → Inv s'
releases-Inv s s' i c v ins e p q = elim v.owned [
  | inl (free, none_in) ↦ absurd (ground (arith, none_in i))
  | inr (o, held, in_iff) ↦
      let (c', ec, vc, er) = release-held 0 i (s.cpus i) deep in
      let mine : o ≡ i = ground (arith, in_iff i) in
      let same : (s'.lock ≡ initlock) × (c ≡ c') = ground (arith, e, er, mine, held) in
      record {
        owned = inl (same.0, λ j. rw q (ground (arith, in_iff j, mine)));
        nested = λ j.
            rw (p, q)
              (elim (Bool-cases (i == j)) [
                | inl t ↦ rw t (subst (IsNested 0) (sym same.1) vc)
                | inr f ↦ rw f (v.nested j)
              ]);
      }
]
  where
    deep : IsNested 1 (s.cpus i)
    deep = subst (λ b. IsNested (depth_of b) (s.cpus i)) ins (v.nested i)

Step-Inv : {s s' : System} → Step s s' → Inv s → Inv s'
Step-Inv {s} {s'} (acquires i c o e p q) v = acquires-Inv s s' i c v o e p q
Step-Inv {s} {s'} (releases i c o e p q) v = releases-Inv s s' i c v o e p q

Reach-Inv : {s t : System} → Inv s → Reach s t → Inv t
Reach-Inv v here = v
Reach-Inv v (next r st) = Step-Inv st (Reach-Inv v r)

-- Every CPU outside, with interrupts on, and the lock fresh.
abbrev pub start : System
start = record {
  lock = record { locked = false; cpu = none };
  cpus = λ i. record { ncli = pos 0; intena = false; interrupts = true };
  inside = λ i. false;
}

start-Inv : Inv start
unfolding initlock
start-Inv = record {
  owned = inl (refl, λ i. refl);
  nested = λ i. record { depth = refl; masked = λ h. absurd (omega arith) };
}

-- In every state that acquire() and release() can reach, at most one CPU is inside the lock, its
-- interrupts are off, another CPU's acquire() spins, and its own would panic.
pub mutual_exclusion :
    (s : System) (i : ℕ)
    → Reach start s
    → s.inside i ≡ true
    → ((j : ℕ) → s.inside j ≡ true → i ≡ j)
      × ((s.cpus i).interrupts ≡ false)
      × ((j : ℕ) → i ≢ j → acquire j s.lock (s.cpus j) ≡ ok none)
      × (acquire i s.lock (s.cpus i) ≡ panic "acquire")
mutual_exclusion s i r ins = elim v.owned [
  | inl (free, none_in) ↦ absurd (ground (arith, none_in i))
  | inr (o, held, in_iff) ↦
      let mine : o ≡ i = ground (arith, in_iff i) in
      (
        λ j h. ground (arith, in_iff j, mine),
        deep.masked (omega arith),
        λ j ne. ground (
          arith,
          mine,
          acquire-taken 0 j o s.lock (s.cpus j) (outside j (ground (arith, in_iff j, mine))) held,
        ),
        ground (arith, mine, acquire-taken 1 i o s.lock (s.cpus i) deep held),
      )
]
  where
    v : Inv s
    v = Reach-Inv start-Inv r

    deep : IsNested 1 (s.cpus i)
    deep = subst (λ b. IsNested (depth_of b) (s.cpus i)) ins (v.nested i)

    outside : (j : ℕ) → s.inside j ≡ false → IsNested 0 (s.cpus j)
    outside j h = subst (λ b. IsNested (depth_of b) (s.cpus j)) h (v.nested j)
