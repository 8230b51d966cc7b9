-- ===== src/Proc/Reap.antt =====
-- exit() and wait() never miss each other.
use mathlib.Core.Option
use large_project.Prelude.{
  ℕ, zero, suc, ◌≡◌, ◌≢◌, refl, sym, ap, ◌∙◌, ◌⊎◌, inl, inr, true, false, List, [], ◌∷◌, some, ◌==◌,
  if◌then◌else◌, get_elem?, arith,
}
use large_project.Proc.{modify}
use large_project.Proc.Table.{
  Procstate, zombie, sleeping, state_eq, Chan, proc_chan, chan_eq, Proc, wake, wakeup1,
}

pub get_elem?-wakeup1 :
    (c : Chan) (ps : List Proc) (i : ℕ)
    → get_elem? (wakeup1 c ps) i ≡ Option.map (wake c) (get_elem? ps i)
unfolding wakeup1
get_elem?-wakeup1 c [] i = refl
get_elem?-wakeup1 c (p ∷ ps) zero = refl
get_elem?-wakeup1 c (p ∷ ps) (suc i) = get_elem?-wakeup1 c ps i

pub get_elem?-modify :
    (ps : List Proc) (i j : ℕ) (f : Proc → Proc)
    → get_elem? (modify ps i f) j
      ≡ (if i == j then Option.map f (get_elem? ps j) else get_elem? ps j)
get_elem?-modify [] i j f = ground arith
get_elem?-modify (p ∷ ps) zero zero f = refl
get_elem?-modify (p ∷ ps) zero (suc j) f = ground arith
get_elem?-modify (p ∷ ps) (suc i) zero f = ground arith
get_elem?-modify (p ∷ ps) (suc i) (suc j) f = ground (arith, get_elem?-modify ps i j f)

pub wakeup1-some :
    (c : Chan) (ps : List Proc) (i : ℕ) {p : Proc}
    → get_elem? (wakeup1 c ps) i ≡ some p
    → (q : Proc) × (get_elem? ps i ≡ some q) × (p ≡ wake c q)
unfolding wakeup1
wakeup1-some c [] i e = cc
wakeup1-some c (q ∷ ps) zero e = (q, refl, ground arith)
wakeup1-some c (q ∷ ps) (suc i) e = wakeup1-some c ps i e

pub modify-some :
    (ps : List Proc) (i j : ℕ) (f : Proc → Proc) {p : Proc}
    → get_elem? (modify ps i f) j ≡ some p
    → (q : Proc) × (get_elem? ps j ≡ some q) × (((i ≡ j) × (p ≡ f q)) ⊎ ((i ≢ j) × (p ≡ q)))
modify-some [] i j f e = cc
modify-some (q ∷ ps) zero zero f e = (q, refl, inl (refl, ground arith))
modify-some (q ∷ ps) zero (suc j) f {p} e = (p, e, inr (omega arith, refl))
modify-some (q ∷ ps) (suc i) zero f e = (q, refl, inr (omega arith, ground arith))
modify-some (q ∷ ps) (suc i) (suc j) f e =
    let (r, g, h) = modify-some ps i j f e in
    (r, g, elim h [ inl (a, b) ↦ inl (ap suc a, b) | inr (a, b) ↦ inr (omega arith, b) ])

state_eq-sleeping : (s : Procstate) → state_eq s sleeping ≡ true → s ≡ sleeping
state_eq-sleeping s h = ground arith

chan_eq-proc_chan : (i : ℕ) → chan_eq (proc_chan i) (proc_chan i) ≡ true
chan_eq-proc_chan i = ground arith

-- A process that still sleeps was not woken.
wake-sleeping :
    (c : Chan) (q : Proc)
    → (wake c q).state ≡ sleeping
    → (wake c q ≡ q) × (chan_eq q.chan c ≡ false)
wake-sleeping c q h = (ground arith, ground arith)

wake-zombie : (c : Chan) (q : Proc) → (wake c q).state ≡ zombie → wake c q ≡ q
wake-zombie c q h = ground arith

pub wake-parent : (c : Chan) (q : Proc) → (wake c q).parent ≡ q.parent
wake-parent c q = ground arith

-- The process in slot `i` sleeps on its own address, as wait() does.
abbrev pub Waiting : List Proc → ℕ → Type 0
Waiting ps i =
    (p : Proc) × (get_elem? ps i ≡ some p) × (p.state ≡ sleeping) × (p.chan ≡ proc_chan i)

-- A zombie child of the process in slot `i` stands in slot `j`.
abbrev pub ZombieChild : List Proc → ℕ → ℕ → Type 0
ZombieChild ps i j =
    (p : Proc) × (get_elem? ps j ≡ some p) × (p.parent ≡ some i) × (p.state ≡ zombie)

-- No process that waits has a zombie child.
abbrev pub NoneMissed : List Proc → Type 0
NoneMissed ps = (i j : ℕ) → Waiting ps i → ZombieChild ps i j → ⊥

-- A wake-up makes no process wait and no process a zombie child.
pub wakeup1-Waiting : (c : Chan) (ps : List Proc) (i : ℕ) → Waiting (wakeup1 c ps) i → Waiting ps i
wakeup1-Waiting c ps i (p, e, s, h) =
    let (q, g, f) = wakeup1-some c ps i e in
    let same : wake c q ≡ q = (wake-sleeping c q (ap (λ r. r.state) (sym f) ∙ s)).0 in
    (q, g, ap (λ r. r.state) (sym (f ∙ same)) ∙ s, ap (λ r. r.chan) (sym (f ∙ same)) ∙ h)

pub wakeup1-woken : (ps : List Proc) (i : ℕ) → Waiting (wakeup1 (proc_chan i) ps) i → ⊥
wakeup1-woken ps i (p, e, s, h) =
    let (q, g, f) = wakeup1-some (proc_chan i) ps i e in
    let (same, other) = wake-sleeping (proc_chan i) q (ap (λ r. r.state) (sym f) ∙ s) in
    ground (arith, other, ap (λ r. r.chan) (sym (f ∙ same)) ∙ h, chan_eq-proc_chan i)

pub wakeup1-ZombieChild :
    (c : Chan) (ps : List Proc) (i j : ℕ) → ZombieChild (wakeup1 c ps) i j → ZombieChild ps i j
wakeup1-ZombieChild c ps i j (p, e, s, h) =
    let (q, g, f) = wakeup1-some c ps j e in
    let same : wake c q ≡ q = wake-zombie c q (ap (λ r. r.state) (sym f) ∙ h) in
    (q, g, ap (λ r. r.parent) (sym (f ∙ same)) ∙ s, ap (λ r. r.state) (sym (f ∙ same)) ∙ h)

pub wakeup1-NoneMissed : (c : Chan) (ps : List Proc) → NoneMissed ps → NoneMissed (wakeup1 c ps)
wakeup1-NoneMissed c ps v i j w z =
    v i j (wakeup1-Waiting c ps i w) (wakeup1-ZombieChild c ps i j z)
