-- ===== src/Proc/Calm.antt =====
-- What fork() relies on in the rest of the kernel, and its loop over the open files.
use large_project.Prelude.{
  ℕ, zero, suc, ◌≡◌, ◌≢◌, refl, sym, ap, ◌∙◌, inl, inr, false, List, [], ◌∷◌, map, some, ◌==◌,
  get_elem?, arith, Bool-cases,
}
use large_project.Prelude.Outcome.{Outcome, ok, ◌>>=◌, >>=-eq-ok, ok-injective}
use large_project.Proc.{Env, dup_files, copy_ofile}
use large_project.Proc.Table.{Proc}

-- The run returns a value.
abbrev pub Returns : {A : Type 0} → Outcome A → Type 0
Returns {A} m = (a : A) × (m ≡ ok a)

pub bind-Returns :
    {A B : Type 0} (m : Outcome A) (f : A → Outcome B) (a : A)
    → m ≡ ok a
    → Returns (f a)
    → Returns (m >>= f)
bind-Returns m f a e (b, g) = (b, ap (λ (r : Outcome _). r >>= f) e ∙ g)

-- The open files of a process with no file, where `c` has its files.
abbrev pub no_files : Proc → List ℕ
no_files c = map (λ f. 0) c.ofile

pub copy_ofile-no_files : (fs : List ℕ) → copy_ofile fs (map (λ f. 0) fs) ≡ fs
unfolding copy_ofile
copy_ofile-no_files [] = refl
copy_ofile-no_files (f ∷ fs) = elim (Bool-cases (f == 0)) [
  | inl z ↦
      let e : 0 ≡ f = ground (arith, z) in
      rw z (
        ap (λ g. g ∷ copy_ofile fs (map (λ f. 0) fs)) e
        ∙ ap (λ gs. f ∷ gs) (copy_ofile-no_files fs))
  | inr n ↦ rw n (ap (λ gs. f ∷ gs) (copy_ofile-no_files fs))
]

module _ (env : Env) where
  open env use {State, kalloc, kfree, copyuvm, filedup, idup}

  -- What fork() relies on in the rest of the kernel, for a process `c`, in the states that are `Sound`
  -- for it; `Stack k` says that page `k` is allocated. No function panics on what it is given: copyuvm()
  -- on the process's page table, kfree() on an allocated page, filedup() on one of its open files.
  pub record Calm (c : Proc) (Sound : State → Type 0) (Stack : ℕ → State → Type 0) : Type 0 where
    pub kalloc_calm :
        (s : State)
        → Sound s
        → Sound (kalloc s).1 × ((kalloc s).0 ≢ 0 → Stack (kalloc s).0 (kalloc s).1)
    pub copyuvm_calm :
        (k : ℕ) (s : State)
        → Sound s
        → Stack k s
        → (r : ℕ × State) × (copyuvm c.pgdir c.sz s ≡ ok r) × Sound r.1 × Stack k r.1
    pub kfree_calm : (k : ℕ) (s : State) → Stack k s → Returns (kfree k s)
    pub filedup_calm :
        (j f : ℕ) (s : State)
        → get_elem? c.ofile j ≡ some f
        → f ≢ 0
        → Sound s
        → (s' : State) × (filedup f s ≡ ok s') × Sound s'

  -- filedup() of each file that is open, in order.
  abbrev pub Dups : List ℕ → State → State → Type 0
  Dups [] s s' = s' ≡ s
  Dups (zero ∷ fs) s s' = Dups fs s s'
  Dups (suc f ∷ fs) s s' = (s1 : State) × (filedup (suc f) s ≡ ok s1) × Dups fs s1 s'

  dup_files-open :
      (f : ℕ) (fs : List ℕ) (s : State)
      → dup_files env (suc f ∷ fs) s ≡ (filedup (suc f) s >>= dup_files env fs)
  unfolding dup_files
  dup_files-open f fs s = let n : (suc f == 0) ≡ false = ground arith in rw n refl

  pub dup_files-Dups : (fs : List ℕ) (s s' : State) → dup_files env fs s ≡ ok s' → Dups fs s s'
  unfolding dup_files
  dup_files-Dups [] s s' h = sym (ok-injective _ _ h)
  dup_files-Dups (zero ∷ fs) s s' h = dup_files-Dups fs s s' h
  dup_files-Dups (suc f ∷ fs) s s' h =
      let (s1, e, h1) = >>=-eq-ok (filedup (suc f) s) _ (sym (dup_files-open f fs s) ∙ h) in
      (s1, e, dup_files-Dups fs s1 s' h1)

  pub dup_files-Returns :
      (Sound : State → Type 0) (fs : List ℕ)
      → ((j f : ℕ) (s : State)
          → get_elem? fs j ≡ some f
          → f ≢ 0
          → Sound s
          → (s' : State) × (filedup f s ≡ ok s') × Sound s')
      → (s : State) → Sound s
      → Returns (dup_files env fs s)
  unfolding dup_files
  dup_files-Returns Sound [] calm s h = (s, refl)
  dup_files-Returns Sound (zero ∷ fs) calm s h =
      dup_files-Returns Sound fs (λ j g s1 e n. calm (suc j) g s1 e n) s h
  dup_files-Returns Sound (suc f ∷ fs) calm s h =
      let (s1, e, h1) = calm 0 (suc f) s refl (λ z. absurd (omega arith)) h in
      let (s2, e2) = dup_files-Returns Sound fs (λ j g s1 e n. calm (suc j) g s1 e n) s1 h1 in
      (s2, dup_files-open f fs s ∙ ap (λ (r : Outcome State). r >>= dup_files env fs) e ∙ e2)
