-- ===== src/Spinlock/Nesting.antt =====
-- pushcli() and popcli() match: interrupts come back exactly when the outermost section is left.
use large_project.Prelude.{
  ℕ, zero, suc, ◌+◌, ◌<◌, ◌≡◌, refl, ap, subst, ◌∙◌, true, false, ◌&&◌, none, some, ◌==◌,
  if◌then◌else◌, arith,
}
use large_project.Prelude.Int.{pos}
use large_project.Prelude.Outcome.{Outcome, ok, panic, ◌>>=◌}
use large_project.Spinlock.{
  Cpu, Spinlock, pushcli, popcli, holding, acquire, release, is_cpu, initlock,
}

-- A CPU inside `d` sections: with `d` positive its interrupts are off.
pub record IsNested (d : ℕ) (c : Cpu) : Type 0 where
  pub depth : c.ncli ≡ pos d
  pub masked : 0 < d → c.interrupts ≡ false

abbrev pub push_many : ℕ → Cpu → Cpu
push_many zero c = c
push_many (suc n) c = push_many n (pushcli c)

abbrev pub pop_many : ℕ → Cpu → Outcome Cpu
pop_many zero c = ok c
pop_many (suc n) c = pop_many n c >>= popcli

pub pushcli-IsNested : {d : ℕ} {c : Cpu} → IsNested d c → IsNested (suc d) (pushcli c)
unfolding pushcli
pushcli-IsNested v = record { depth = ground (arith, v.depth); masked = λ h. refl }

-- Inside a section a matched pair changes nothing.
popcli-pushcli_inside : (d : ℕ) (c : Cpu) → IsNested (suc d) c → popcli (pushcli c) ≡ ok c
unfolding popcli pushcli
popcli-pushcli_inside d c v = ground (arith, v.depth, v.masked (omega arith))

-- Outside, it leaves `intena` behind.
popcli-pushcli_outside :
    (c : Cpu) → IsNested 0 c → popcli (pushcli c) ≡ ok (record c { intena = c.interrupts })
unfolding popcli pushcli
popcli-pushcli_outside c v = ground (arith, v.depth)

pop_many-push_many_inside :
    (n d : ℕ) (c : Cpu) → IsNested (suc d) c → pop_many n (push_many n c) ≡ ok c
pop_many-push_many_inside zero d c v = refl
pop_many-push_many_inside (suc n) d c v =
    rw (pop_many-push_many_inside n (suc d) (pushcli c) (pushcli-IsNested v))
      (popcli-pushcli_inside d c v)

push_many-IsNested : (n d : ℕ) (c : Cpu) → IsNested d c → IsNested (n + d) (push_many n c)
push_many-IsNested zero d c v = record {
  depth = v.depth ∙ ap pos (omega arith);
  masked = λ h. v.masked (omega arith);
}
push_many-IsNested (suc n) d c v =
    subst (λ k. IsNested k (push_many n (pushcli c))) (omega arith)
      (push_many-IsNested n (suc d) (pushcli c) (pushcli-IsNested v))

-- On a CPU whose interrupts are off in every section, `n` calls of pushcli() turn interrupts off,
-- if there is one, and `n` calls of popcli() after them do not panic and restore the nesting depth
-- and the interrupt flag.
pub pop_many-push_many :
    (n d : ℕ) (c : Cpu)
    → IsNested d c
    → (0 < n → (push_many n c).interrupts ≡ false)
      × (c' : Cpu) × (pop_many n (push_many n c) ≡ ok c')
      × (c'.ncli ≡ c.ncli)
      × (c'.interrupts ≡ c.interrupts)
pop_many-push_many zero d c v = (λ h. absurd (omega arith), c, refl, refl, refl)
pop_many-push_many (suc n) zero c v = (
  λ h. (push_many-IsNested (suc n) zero c v).masked (omega arith),
  record c { intena = c.interrupts },
  rw (pop_many-push_many_inside n 0 (pushcli c) (pushcli-IsNested v)) (popcli-pushcli_outside c v),
  refl,
  refl,
)
pop_many-push_many (suc n) (suc d) c v = (
  λ h. (push_many-IsNested (suc n) (suc d) c v).masked (omega arith),
  c,
  pop_many-push_many_inside (suc n) d c v,
  refl,
  refl,
)

holding-ok :
    (d me : ℕ) (lk : Spinlock) (c : Cpu)
    → IsNested (suc d) c
    → holding me lk c ≡ ok (lk.locked && is_cpu me lk.cpu, c)
unfolding holding
holding-ok d me lk c v = rw (popcli-pushcli_inside d c v)

pub acquire-free :
    (d me : ℕ) (lk : Spinlock) (c : Cpu)
    → IsNested d c
    → lk.locked ≡ false
    → acquire me lk c ≡ ok (some (record { locked = true; cpu = some me }, pushcli c))
unfolding acquire
acquire-free d me lk c v free = rw (holding-ok d me lk (pushcli c) (pushcli-IsNested v), free)

pub acquire-taken :
    (d me other : ℕ) (lk : Spinlock) (c : Cpu)
    → IsNested d c
    → lk ≡ record { locked = true; cpu = some other }
    → acquire me lk c ≡ (if other == me then panic "acquire" else ok none)
unfolding acquire
acquire-taken d me other lk c v e =
    rw (holding-ok d me lk (pushcli c) (pushcli-IsNested v), e) ground arith

pub popcli-IsNested :
    (d : ℕ) (c : Cpu) → IsNested (suc d) c → (c' : Cpu) × (popcli c ≡ ok c') × IsNested d c'
unfolding popcli
popcli-IsNested zero c v = (
  record { ncli = pos 0; intena = c.intena; interrupts = c.intena },
  ground (arith, v.depth, v.masked (omega arith)),
  record { depth = refl; masked = λ h. absurd (omega arith) },
)
popcli-IsNested (suc d) c v = (
  record { ncli = pos (suc d); intena = c.intena; interrupts = false },
  ground (arith, v.depth, v.masked (omega arith)),
  record { depth = refl; masked = λ h. refl },
)

pub release-held :
    (d me : ℕ) (c : Cpu)
    → IsNested (suc d) c
    → (c' : Cpu) × (popcli c ≡ ok c')
      × IsNested d c'
      × (release me (record { locked = true; cpu = some me }) c ≡ ok (initlock, c'))
unfolding release initlock
release-held d me c v =
    let (c', e, v') = popcli-IsNested d c v in
    (
      c',
      e,
      v',
      rw (holding-ok d me (record { locked = true; cpu = some me }) c v) (ground (arith, e)),
    )

pub release-other :
    (d me : ℕ) (lk : Spinlock) (c : Cpu)
    → IsNested (suc d) c
    → (lk.locked && is_cpu me lk.cpu) ≡ false
    → release me lk c ≡ panic "release"
unfolding release
release-other d me lk c v e = rw (holding-ok d me lk c v, e)
