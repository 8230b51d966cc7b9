-- ===== src/Syscall/Bounds.antt =====
-- What the checks on the arguments of a system call guarantee.
use large_project.Prelude.{
  ℕ, zero, suc, ◌+◌, ◌-◌, ◌*◌, ◌%◌, ◌≤◌, ◌<◌, ◌≡◌, ◌≢◌, refl, Option, none, some, arith, ℕ_discrete,
  subst, sym, ap, ◌∙◌,
}
use large_project.Prelude.Param.{uint_mod, kernbase}
use large_project.Syscall.{
  ◌>>=◌, User, word, fetchint, find_nul, fetchstr, argint, check_ptr, argptr, with_length, argstr,
}
use large_project.Strings.{Memory}

>>=-eq-some {ℓ κ} :
    {A : Type ℓ} {B : Type κ} (m : Option A) (f : A → Option B) {b : B}
    → (m >>= f) ≡ some b
    → (a : A) × (m ≡ some a) × (f a ≡ some b)
>>=-eq-some (some a) f h = (a, refl, h)
>>=-eq-some none f h = cc

abbrev get {ℓ} : {A : Type ℓ} → A → Option A → A
get d none = d
get d (some a) = a

-- The word at `a` lies below `sz` and is `x`.
abbrev pub HoldsWord : User → ℕ → ℕ → Type 0
HoldsWord u a x = (a + 4 ≤ u.sz) × (x ≡ word u.memory a)

fetchint-HoldsWord :
    (u : User) (a x : ℕ) → u.sz ≤ kernbase → fetchint u a ≡ some x → HoldsWord u a x
unfolding fetchint
fetchint-HoldsWord u a x k h = (ground arith, ground arith)

-- `k` is the length of the string at `a`, whose NUL lies below `sz`.
abbrev pub HoldsString : User → ℕ → ℕ → Type 0
HoldsString u a k =
    (a + k < u.sz) × (u.memory (a + k) ≡ 0) × ((i : ℕ) → i < k → u.memory (a + i) ≢ 0)

find_nul-some :
    (mem : Memory) (a k n m : ℕ)
    → ((i : ℕ) → i < k → mem (a + i) ≢ 0)
    → find_nul mem a k n ≡ some m
    → (m < k + n) × (mem (a + m) ≡ 0) × ((i : ℕ) → i < m → mem (a + i) ≢ 0)
unfolding find_nul
find_nul-some mem a k zero m before h = ground arith
find_nul-some mem a k (suc n) m before h = elim (ℕ_discrete (mem (a + k)) 0) [
  | yes z ↦
      subst (λ j. (j < k + suc n) × (mem (a + j) ≡ 0) × ((i : ℕ) → i < j → mem (a + i) ≢ 0))
        (first z) (omega arith, z, before)
  | no z ↦
      (let (less, end, none_before) = find_nul-some mem a (k + 1) n m (extend z) (ground arith) in
        (omega arith, end, none_before))
]
  where
    first : mem (a + k) ≡ 0 → k ≡ m
    first z = ground arith

    extend : mem (a + k) ≢ 0 → (i : ℕ) → i < k + 1 → mem (a + i) ≢ 0
    extend z i l = elim (ℕ_discrete i k) [
      | yes e ↦ subst (λ j. mem (a + j) ≢ 0) (sym e) z
      | no ne ↦ before i (omega arith)
    ]

fetchstr-HoldsString : (u : User) (a k : ℕ) → fetchstr u a ≡ some k → HoldsString u a k
unfolding fetchstr
fetchstr-HoldsString u a k h =
    let (less, end, none_before) =
      find_nul-some u.memory a 0 (u.sz - a) k (λ i l. omega arith) (ground arith) in
    (ground arith, end, none_before)

argint-HoldsWord :
    (u : User) (n x : ℕ)
    → u.sz ≤ kernbase
    → argint u n ≡ some x
    → HoldsWord u ((u.esp + 4 + 4 * n) % uint_mod) x
unfolding argint
argint-HoldsWord u n x k h = fetchint-HoldsWord u ((u.esp + 4 + 4 * n) % uint_mod) x k h

check_ptr-inside :
    (u : User) (size i p : ℕ)
    → u.sz ≤ kernbase
    → check_ptr u size i ≡ some p
    → (p ≡ i) × (i + size ≤ u.sz) × (i < u.sz)
unfolding check_ptr
check_ptr-inside u size i p k h = (ground arith, ground arith, ground arith)

-- For a process whose size is at most KERNBASE: when argptr() accepts argument `n` as a pointer to
-- `size` bytes, the argument's own word lies below `sz` and holds the pointer, and so do the `size`
-- bytes that it points to, though the sums in the tests wrap at 2^32.
pub argptr-inside :
    (u : User) (n size p : ℕ)
    → u.sz ≤ kernbase
    → argptr u n size ≡ some p
    → HoldsWord u ((u.esp + 4 + 4 * n) % uint_mod) p × (p + size ≤ u.sz) × (p < u.sz)
unfolding argptr
argptr-inside u n size p k h =
    let (i, fetched, checked) = >>=-eq-some (argint u n) (check_ptr u size) h in
    let (e, inside, start) = check_ptr-inside u size i p k checked in
    let (word_inside, held) = argint-HoldsWord u n i k fetched in
    ((word_inside, e ∙ held), omega arith, omega arith)

with_length-some :
    (i a k : ℕ) (o : Option ℕ) → with_length i o ≡ some (a, k) → (i ≡ a) × (o ≡ some k)
unfolding with_length
with_length-some i a k none h = ground arith
with_length-some i a k (some j) h =
    (ap (λ o. (get {A = ℕ × ℕ} (i, j) o).0) h, ap (λ o. some ((get {A = ℕ × ℕ} (i, j) o).1)) h)

-- For a process whose size is at most KERNBASE: when argstr() accepts argument `n`, the word lies below
-- `sz`, and at the address that it holds stands a string of the returned length whose NUL lies below
-- `sz`.
pub argstr-HoldsString :
    (u : User) (n a k : ℕ)
    → u.sz ≤ kernbase
    → argstr u n ≡ some (a, k)
    → HoldsWord u ((u.esp + 4 + 4 * n) % uint_mod) a × HoldsString u a k
unfolding argstr
argstr-HoldsString u n a k b h =
    let (i, fetched, found) =
      >>=-eq-some (argint u n) (λ addr. with_length addr (fetchstr u addr)) h in
    let (e, str) = with_length-some i a k (fetchstr u i) found in
    let (word_inside, held) = argint-HoldsWord u n i b fetched in
    ((word_inside, sym e ∙ held), subst (λ j. HoldsString u j k) e (fetchstr-HoldsString u i k str))
