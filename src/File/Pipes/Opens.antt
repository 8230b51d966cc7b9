-- ===== src/File/Pipes/Opens.antt =====
-- pipealloc() and the reference counts: what it opens, and what it closes again.
use large_project.Prelude.{
  ℕ, zero, suc, ◌+◌, ◌≡◌, ◌≢◌, refl, sym, ap, ◌∙◌, subst, not, inl, inr, Bool, true, false, [], ◌∷◌,
  Option, none, some, ltb, ◌==◌, if◌then◌else◌, arith, ℕ_discrete, Bool-cases,
}
use large_project.Prelude.Outcome.{Outcome, ok, panic, ◌>>=◌}
use large_project.Prelude.Param.{nfile}
use large_project.File.{
  File, fd_none, fd_pipe, Ftable, set_file, find_free, take_slot, filealloc, fileclose, Closing,
}
use large_project.File.Pipes.{set_end, close_all, with_second, with_first, pipealloc}

set_file-ref :
    (t : Ftable) (k : ℕ) (f : File) (i : ℕ)
    → (set_file t k f i).ref ≡ (if k == i then f.ref else (t i).ref)
set_file-ref t k f i = elim (Bool-cases (i == k)) [
  | inl y ↦ let e : (k == i) ≡ true = ground (arith, y) in rw (y, e) refl
  | inr n ↦ let e : (k == i) ≡ false = ground (arith, n) in rw (n, e) refl
]

-- What filealloc() found and made of it.
abbrev IsFree : Ftable → Option ℕ → Type 0
IsFree t none = Unit
IsFree t (some k) = (t k).ref ≡ 0

abbrev Takes : Ftable → Option (ℕ × Ftable) → Type 0
Takes t none = Unit
Takes t (some (k, t')) =
    ((t k).ref ≡ 0) × ((i : ℕ) → (t' i).ref ≡ (if k == i then 1 else (t i).ref))

find_free-IsFree : (t : Ftable) (i n : ℕ) → IsFree t (find_free t i n)
unfolding find_free
find_free-IsFree t i zero = tt
find_free-IsFree t i (suc n) = elim (Bool-cases ((t i).ref == 0)) [
  | inl y ↦ rw y (ground (arith, y))
  | inr f ↦ rw f (find_free-IsFree t (i + 1) n)
]

filealloc-Takes : (t : Ftable) → Takes t (filealloc t)
unfolding filealloc
filealloc-Takes t = of_slot (find_free t 0 nfile) (find_free-IsFree t 0 nfile)
  where
    of_slot : (o : Option ℕ) → IsFree t o → Takes t (take_slot t o)
    of_slot none h = tt
    of_slot (some k) h = (h, λ i. set_file-ref t k (record (t k) { ref = 1 }) i)

-- The files `fs`, which have a reference each, are closed.
abbrev Closes : ℕ → Ftable → Outcome (Ftable × Closing) → Type 0
Closes k t (ok (t', c)) = (i : ℕ) → (t' i).ref ≡ (if k == i then 0 else (t i).ref)
Closes k t (panic e) = ⊥

fileclose-Closes : (t : Ftable) (k : ℕ) → (t k).ref ≡ 1 → Closes k t (fileclose t k)
unfolding fileclose
fileclose-Closes t k h =
    let a : ((t k).ref == 0) ≡ false = ground arith in
    let b : ltb 1 (t k).ref ≡ false = ground arith in
    rw (a, b) (λ i. set_file-ref t k (record (t k) { ref = 0; kind = fd_none }) i)

abbrev pub ClosesBoth : ℕ → ℕ → Ftable → Outcome Ftable → Type 0
ClosesBoth f g t (ok t') =
    (i : ℕ) → (t' i).ref ≡ (if f == i then 0 else if g == i then 0 else (t i).ref)
ClosesBoth f g t (panic e) = ⊥

pub close_all-ClosesBoth :
    (t : Ftable) (f g : ℕ)
    → (t f).ref ≡ 1
    → (t g).ref ≡ 1
    → f ≢ g
    → ClosesBoth f g t (close_all (f ∷ g ∷ []) t)
unfolding close_all
close_all-ClosesBoth t f g rf rg ne = one (fileclose t f) (fileclose-Closes t f rf)
  where
    two :
        (t1 : Ftable) (r : Outcome (Ftable × Closing))
        → ((i : ℕ) → (t1 i).ref ≡ (if f == i then 0 else (t i).ref))
        → Closes g t1 r
        → ClosesBoth f g t (r >>= λ r. ok r.0)
    two t1 (ok (t2, c)) h k = λ i. let a = h i in let b = k i in ground arith
    two t1 (panic e) h k = elim k [ ]

    one :
        (r : Outcome (Ftable × Closing))
        → Closes f t r
        → ClosesBoth f g t (r >>= λ r. fileclose r.0 g >>= λ s. ok s.0)
    one (ok (t1, c)) h =
        two t1 (fileclose t1 g) h (fileclose-Closes t1 g (let a = h g in ground arith))
    one (panic e) h = elim h [ ]

-- A file is the end of the pipe `page` that reads, or the one that writes.
abbrev pub IsEnd : ℕ → Bool → File → Type 0
IsEnd page reads e =
    (e.kind ≡ fd_pipe) × (e.pipe ≡ page) × (e.readable ≡ reads) × (e.writable ≡ not reads)

-- What pipealloc() has done to the files.
abbrev pub Opens : ℕ → Ftable → Outcome (Option (ℕ × ℕ) × Ftable) → Type 0
Opens page t (ok (none, t')) = (i : ℕ) → (t' i).ref ≡ (t i).ref
Opens page t (ok (some (f, g), t')) =
    (f ≢ g)
    × IsEnd page true (t' f)
    × IsEnd page false (t' g)
    × ((t f).ref ≡ 0)
    × ((t g).ref ≡ 0)
    × ((i : ℕ) → (t' i).ref ≡ (if f == i then 1 else if g == i then 1 else (t i).ref))
Opens page t (panic e) = ⊥

-- The type and the pipe of a file leave the references.
set_end-ref :
    (t : Ftable) (k page : ℕ) (reads : Bool) (i : ℕ) → (set_end t k page reads i).ref ≡ (t i).ref
unfolding set_end
set_end-ref t k page reads i = elim (Bool-cases (i == k)) [
  | inl y ↦ let e : k ≡ i = ground (arith, y) in rw y (ap (λ j. (t j).ref) e)
  | inr n ↦ rw n refl
]

set_end-here :
    (t : Ftable) (k page : ℕ) (reads : Bool) → IsEnd page reads (set_end t k page reads k)
unfolding set_end
set_end-here t k page true = let e : (k == k) ≡ true = ground arith in rw e (refl, refl, refl, refl)
set_end-here t k page false =
    let e : (k == k) ≡ true = ground arith in rw e (refl, refl, refl, refl)

set_end-there :
    (t : Ftable) (k page : ℕ) (reads : Bool) (i : ℕ) → i ≢ k → set_end t k page reads i ≡ t i
unfolding set_end
set_end-there t k page reads i ne = let e : (i == k) ≡ false = ground arith in rw e refl

with_second-Opens :
    (page f : ℕ) (t t0 : Ftable) (r : Option (ℕ × Ftable))
    → (t f).ref ≡ 0
    → ((i : ℕ) → (t0 i).ref ≡ (if f == i then 1 else (t i).ref))
    → Takes t0 r
    → Opens page t (with_second page f t0 r)
unfolding with_second
with_second-Opens page f t t0 none z h k =
    undone (fileclose t0 f) (fileclose-Closes t0 f (let a = h f in ground arith))
  where
    undone :
        (r : Outcome (Ftable × Closing))
        → Closes f t0 r
        → Opens page t (r >>= (λ r. ok r.0) >>= λ t'. ok (none, t'))
    undone (ok (t1, c)) k = λ i.
        let a = k i in
        let d = h i in
        elim (ℕ_discrete f i) [
          | yes e ↦ let q = ap (λ j. (t j).ref) e in ground arith
          | no ne ↦ ground arith
        ]
    undone (panic e) k = elim k [ ]
with_second-Opens page f t t0 (some (g, t1)) z h (y, k) = elim (Bool-cases (page == 0)) [
  | inl p ↦ rw p (
      undone (close_all (f ∷ g ∷ []) t1) (
        close_all-ClosesBoth t1 f g (let a = k f in let b = h f in ground arith)
          (let a = k g in ground arith) ne))
  | inr p ↦ rw p (
    ne,
    subst (IsEnd page true) (sym (set_end-there (set_end t1 f page true) g page false f ne))
        (set_end-here t1 f page true),
    set_end-here (set_end t1 f page true) g page false,
    z,
    zg,
    λ i.
        set_end-ref (set_end t1 f page true) g page false i
        ∙ set_end-ref t1 f page true i
        ∙ (let b = k i in
            let d = h i in elim (ℕ_discrete g i) [ yes e ↦ ground arith | no q ↦ ground arith ]),
  )
]
  where
    ne : f ≢ g
    ne e = let a = h g in ground arith

    zg : (t g).ref ≡ 0
    zg = let a = h g in ground arith

    undone : (r : Outcome Ftable) → ClosesBoth f g t1 r → Opens page t (r >>= λ t'. ok (none, t'))
    undone (ok t2) c = λ i.
        let a = c i in
        let b = k i in
        let d = h i in
        elim (ℕ_discrete f i) [
          | yes e ↦ let q = ap (λ j. (t j).ref) e in ground arith
          | no q ↦ elim (ℕ_discrete g i) [
            | yes e ↦ let q = ap (λ j. (t j).ref) e in ground arith
            | no s ↦ ground arith
          ]
        ]
    undone (panic e) c = elim c [ ]

pub pipealloc-Opens : (page : ℕ) (t : Ftable) → Opens page t (pipealloc page t)
unfolding pipealloc with_first
pipealloc-Opens page t = first (filealloc t) (filealloc-Takes t)
  where
    first : (r : Option (ℕ × Ftable)) → Takes t r → Opens page t (with_first page t r)
    first none h = λ i. refl
    first (some (f, t0)) (z, h) =
        with_second-Opens page f t t0 (filealloc t0) z h (filealloc-Takes t0)
