-- ===== src/File/Refs.antt =====
-- The reference counts of open files against the descriptors that refer to them.
use large_project.Prelude.{
  ℕ, zero, suc, ◌+◌, ◌-◌, ◌≤◌, ◌≡◌, refl, ap, ◌∙◌, [], ◌∷◌, Option, none, some, ltb, ◌==◌,
  if◌then◌else◌, get_elem?, set, arith, ℕ_discrete, Bool-cases, Option-cases, inl, inr,
}
use large_project.Prelude.Outcome.{Outcome, ok, panic}
use large_project.File.{
  File, Ftable, nothing, closing, fd_none, set_file, filedup, fileclose, Closing, Ofile, join,
  argfd, fdalloc, after_fd, Files, Result, dup_to, dup_file, sys_dup, close_file, sys_close,
}

-- How many descriptors refer to file `i`.
unfoldable pub occurrences : Ofile → ℕ → ℕ
occurrences [] i = 0
occurrences (none ∷ o) i = occurrences o i
occurrences (some j ∷ o) i = let rest = occurrences o i in if j == i then suc rest else rest

-- Each reference count is the number of the process's descriptors for the file, and of those that the
-- other processes have, which `others` counts.
abbrev pub IsCounted : (ℕ → ℕ) → Files → Type 0
IsCounted others s = (i : ℕ) → (s.ftable i).ref ≡ occurrences s.ofile i + others i

-- What fdalloc() made of the descriptors `o`: one more of them refers to `f`.
abbrev pub Placed : Ofile → ℕ → ℕ → Option (ℕ × Ofile) → Type 0
Placed o f i none = Unit {0}
Placed o f i (some r) =
    occurrences r.1 i ≡ (if f == i then suc (occurrences o i) else occurrences o i)

after_fd-Placed :
    (g : ℕ) (o : Ofile) (f i : ℕ) (r : Option (ℕ × Ofile))
    → Placed o f i r
    → Placed (some g ∷ o) f i (after_fd (some g) r)
unfolding occurrences after_fd
after_fd-Placed g o f i none h = tt
after_fd-Placed g o f i (some r) h = ground arith

pub fdalloc-Placed : (o : Ofile) (f i : ℕ) → Placed o f i (fdalloc o f)
unfolding fdalloc occurrences
fdalloc-Placed [] f i = tt
fdalloc-Placed (none ∷ o) f i = refl
fdalloc-Placed (some g ∷ o) f i = after_fd-Placed g o f i (fdalloc o f) (fdalloc-Placed o f i)

abbrev get {ℓ} : {A : Type ℓ} → A → Option A → A
get d none = d
get d (some a) = a

set-occurrences :
    (o : Ofile) (fd f i : ℕ)
    → join (get_elem? o fd) ≡ some f
    → occurrences o i
      ≡ (if f == i then suc (occurrences (set o fd none) i) else occurrences (set o fd none) i)
unfolding occurrences join
set-occurrences [] fd f i h = ground arith
set-occurrences (none ∷ o) zero f i h = ground arith
set-occurrences (some g ∷ o) zero f i h = rw (ap (get g) h) refl
set-occurrences (none ∷ o) (suc fd) f i h = set-occurrences o fd f i h
set-occurrences (some g ∷ o) (suc fd) f i h = let ih = set-occurrences o fd f i h in ground arith

-- A descriptor that names a file accounts for one of its references.
occurrences-pos : (o : Ofile) (fd f : ℕ) → join (get_elem? o fd) ≡ some f → 1 ≤ occurrences o f
occurrences-pos o fd f h = let one = set-occurrences o fd f f h in ground arith

argfd-join : (o : Ofile) (fd f : ℕ) → argfd o fd ≡ some f → join (get_elem? o fd) ≡ some f
unfolding argfd
argfd-join o fd f h = ground arith

-- A call returned, to a state in which the references are counted.
abbrev pub Counted : (ℕ → ℕ) → Result → Type 0
Counted others (ok r) = IsCounted others r.1
Counted others (panic s) = ⊥

set_file-ref :
    (t : Ftable) (f : ℕ) (g : File) (i : ℕ)
    → (set_file t f g i).ref ≡ (if i == f then g.ref else (t i).ref)
set_file-ref t f g i = elim (Bool-cases (i == f)) [ inl y ↦ rw y refl | inr n ↦ rw n refl ]

filedup-ok :
    (t : Ftable) (f : ℕ)
    → 1 ≤ (t f).ref
    → filedup t f ≡ ok (set_file t f (record (t f) { ref = (t f).ref + 1 }))
unfolding filedup
filedup-ok t f h = ground arith

dup_to-Counted :
    (others : ℕ → ℕ) (s : Files) (f : ℕ) (r : Option (ℕ × Ofile))
    → IsCounted others s
    → 1 ≤ occurrences s.ofile f
    → ((i : ℕ) → Placed s.ofile f i r)
    → Counted others (dup_to s f r)
unfolding dup_to
dup_to-Counted others s f none c p q = c
dup_to-Counted others s f (some (fd, o)) c p q =
    let used = c f in rw (filedup-ok s.ftable f (omega arith)) (λ i. counted i)
  where
    more :
        (i : ℕ)
        → Dec (i ≡ f)
        → (s.ftable i).ref + (if i == f then 1 else 0) ≡ occurrences o i + others i
    more i d = let there = c i in let placed = q i in ground arith

    step :
        (i : ℕ)
        → Dec (i ≡ f)
        → (if i == f then (s.ftable f).ref + 1 else (s.ftable i).ref)
          ≡ (s.ftable i).ref + (if i == f then 1 else 0)
    step i (yes y) = rw y (ground arith)
    step i (no n) = ground arith

    counted :
        (i : ℕ)
        → (set_file s.ftable f (record (s.ftable f) { ref = (s.ftable f).ref + 1 }) i).ref
          ≡ occurrences o i + others i
    counted i =
        set_file-ref s.ftable f (record (s.ftable f) { ref = (s.ftable f).ref + 1 }) i
        ∙ step i (ℕ_discrete i f)
        ∙ more i (ℕ_discrete i f)

-- Where the references are counted, dup() of any number does not panic, and leaves them counted: the
-- file that a new descriptor names has one more.
pub sys_dup-Counted :
    (others : ℕ → ℕ) (s : Files) (fd : ℕ) → IsCounted others s → Counted others (sys_dup s fd)
unfolding sys_dup dup_file
sys_dup-Counted others s fd c = elim (Option-cases (argfd s.ofile fd)) [
  | inl n ↦ rw n c
  | inr (f, e) ↦ rw e (
      dup_to-Counted others s f (fdalloc s.ofile f) c
        (occurrences-pos s.ofile fd f (argfd-join s.ofile fd f e))
        (λ i. fdalloc-Placed s.ofile f i))
]

-- What fileclose() of a file in use returns.
fileclose-ok :
    (t : Ftable) (f : ℕ)
    → 1 ≤ (t f).ref
    → (t' : Ftable) × (a : Closing) × (fileclose t f ≡ ok (t', a))
      × ((i : ℕ) → (t' i).ref ≡ (if i == f then (t f).ref - 1 else (t i).ref))
unfolding fileclose
fileclose-ok t f h = elim (Bool-cases (ltb 1 (t f).ref)) [
  | inl y ↦ (
    set_file t f (record (t f) { ref = (t f).ref - 1 }),
    nothing,
    ground arith,
    set_file-ref t f (record (t f) { ref = (t f).ref - 1 }),
  )
  | inr n ↦ (
    set_file t f (record (t f) { ref = 0; kind = fd_none }),
    closing (t f) (t f).kind,
    ground arith,
    λ i. set_file-ref t f (record (t f) { ref = 0; kind = fd_none }) i ∙ ground arith,
  )
]

-- A call of close() returned, to a state in which the references are counted.
abbrev pub Closed : (ℕ → ℕ) → Outcome ((Option ℕ × Files) × Closing) → Type 0
Closed others (ok r) = IsCounted others r.0.1
Closed others (panic s) = ⊥

close_file-Closed :
    (others : ℕ → ℕ) (s : Files) (fd f : ℕ)
    → IsCounted others s
    → join (get_elem? s.ofile fd) ≡ some f
    → Closed others (close_file s fd (some f))
unfolding close_file
close_file-Closed others s fd f c e =
    let (t, a, eq, refs) = fileclose-ok s.ftable f used in
    rw eq (λ i. refs i ∙ fewer i (ℕ_discrete i f))
  where
    used : 1 ≤ (s.ftable f).ref
    used = let here = c f in let one = occurrences-pos s.ofile fd f e in omega arith

    fewer :
        (i : ℕ)
        → Dec (i ≡ f)
        → (if i == f then (s.ftable f).ref - 1 else (s.ftable i).ref)
          ≡ occurrences (set s.ofile fd none) i + others i
    fewer i (yes y) =
        let here = c f in let gone = set-occurrences s.ofile fd f f e in rw y (ground arith)
    fewer i (no n) = let here = c i in let gone = set-occurrences s.ofile fd f i e in ground arith

-- Where the references are counted, close() of any number does not panic, and leaves them counted.
pub sys_close-Closed :
    (others : ℕ → ℕ) (s : Files) (fd : ℕ) → IsCounted others s → Closed others (sys_close s fd)
unfolding sys_close close_file
sys_close-Closed others s fd c = elim (Option-cases (argfd s.ofile fd)) [
  | inl n ↦ rw n c
  | inr (f, e) ↦ rw e (close_file-Closed others s fd f c (argfd-join s.ofile fd f e))
]
