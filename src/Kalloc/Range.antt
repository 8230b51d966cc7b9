-- ===== src/Kalloc/Range.antt =====
-- freerange(): which pages the allocator starts with.
use large_project.Prelude.{
  ℕ, zero, suc, ◌+◌, ◌-◌, ◌/◌, ◌%◌, ◌≤◌, ◌<◌, ◌≡◌, refl, subst, ◌∙◌, List, [], ◌∷◌, leb, arith,
  Bool-cases, inl, inr,
}
use large_project.Prelude.Outcome.{ok}
use large_project.Prelude.Param.{pgsize, kernbase, phystop}
use large_project.Kalloc.{Kmem, kfree, free_pages, freerange, pg_round_up}
use large_project.Kalloc.Chain.{NotIn, Free, kfree-Free}

-- `n` consecutive pages from `p` on, pushed one after another onto `xs`.
abbrev pub pages_from : ℕ → ℕ → List ℕ → List ℕ
pages_from zero p xs = xs
pages_from (suc n) p xs = pages_from n (p + pgsize) (p ∷ xs)

abbrev pub AllBelow : ℕ → List ℕ → Type 0
AllBelow p [] = Unit
AllBelow p (x ∷ xs) = (x < p) × AllBelow p xs

AllBelow-NotIn : (p : ℕ) (xs : List ℕ) → AllBelow p xs → NotIn p xs
AllBelow-NotIn p [] h = tt
AllBelow-NotIn p (x ∷ xs) h = (omega arith, AllBelow-NotIn p xs h.1)

AllBelow-mono : (p q : ℕ) (xs : List ℕ) → p ≤ q → AllBelow p xs → AllBelow q xs
AllBelow-mono p q [] le h = tt
AllBelow-mono p q (x ∷ xs) le h = (omega arith, AllBelow-mono p q xs le h.1)

module _ (end : ℕ) (high : kernbase ≤ end) where
  free_pages-step :
      (n p vend : ℕ) (k k' : Kmem)
      → p + pgsize ≤ vend
      → kfree end p k ≡ ok k'
      → free_pages end (suc n) p vend k ≡ free_pages end n (p + pgsize) vend k'
  unfolding free_pages
  free_pages-step n p vend k k' h e = ground arith

  free_pages-stop : (n p vend : ℕ) (k : Kmem) → vend < p + pgsize → free_pages end n p vend k ≡ ok k
  unfolding free_pages
  free_pages-stop zero p vend k h = refl
  free_pages-stop (suc n) p vend k h = ground arith

  free_pages-Free :
      (n p vend : ℕ) (k : Kmem) (xs : List ℕ)
      → (vend - p) / pgsize ≤ n
      → p % pgsize ≡ 0
      → end ≤ p
      → vend ≤ kernbase + phystop
      → AllBelow p xs
      → Free end k xs
      → (k' : Kmem) × (free_pages end n p vend k ≡ ok k')
        × Free end k' (pages_from ((vend - p) / pgsize) p xs)
  free_pages-Free zero p vend k xs enough al lo hi b c =
      (k, free_pages-stop zero p vend k (omega arith), rw (none) c)
    where
      none : (vend - p) / pgsize ≡ 0
      none = omega arith
  free_pages-Free (suc n) p vend k xs enough al lo hi b c =
      elim (Bool-cases (leb (p + pgsize) vend)) [
        | inl t ↦
            let (k1, e1, c1) =
              kfree-Free end p k xs high (record { aligned = al; above = lo; below = ground arith })
                (AllBelow-NotIn p xs b) c in
            let (k2, e2, c2) =
              free_pages-Free n (p + pgsize) vend k1 (p ∷ xs) (ground arith) (omega arith)
                (omega arith) hi (omega arith, AllBelow-mono p (p + pgsize) xs (omega arith) b)
                c1 in
            (
              k2,
              free_pages-step n p vend k k1 (ground arith) e1 ∙ e2,
              subst (λ m. Free end k2 (pages_from m p xs)) (more (ground arith)) c2,
            )
        | inr f ↦ (
          k,
          free_pages-stop (suc n) p vend k (ground arith),
          subst (λ m. Free end k (pages_from m p xs)) (fewer (ground arith)) c,
        )
      ]
    where
      more : p + pgsize ≤ vend → suc ((vend - (p + pgsize)) / pgsize) ≡ (vend - p) / pgsize
      more h = omega arith

      fewer : vend < p + pgsize → 0 ≡ (vend - p) / pgsize
      fewer h = omega arith

  -- freerange(vstart, vend) onto an empty free list, in kernel memory below PHYSTOP, ends without a
  -- panic, and the free list is then exactly the whole pages between the two addresses.
  pub freerange-Free :
      (vstart vend : ℕ) (k : Kmem)
      → end ≤ vstart
      → vstart ≤ vend
      → vend ≤ kernbase + phystop
      → k.freelist ≡ 0
      → let p = pg_round_up vstart in
        (k' : Kmem) × (freerange end vstart vend k ≡ ok k')
        × Free end k' (pages_from ((vend - p) / pgsize) p [])
        × (vstart ≤ p)
        × (p < vstart + pgsize)
        × (p % pgsize ≡ 0)
  unfolding freerange
  freerange-Free vstart vend k lo le hi e =
      let (k', q, c) =
        free_pages-Free (vend / pgsize) (pg_round_up vstart) vend k [] (omega arith) (omega arith)
          (omega arith) hi tt e in
      (k', ground (arith, q), c, omega arith, omega arith, omega arith)
