-- ===== src/Kalloc/Chain.antt =====
-- The free list as a list of pages: kfree() pushes, kalloc() pops, and nothing is handed out twice.
use large_project.Prelude.{
  ℕ, ◌+◌, ◌%◌, ◌≤◌, ◌<◌, ◌≡◌, ◌≢◌, refl, sym, subst, List, [], ◌∷◌, ◌==◌, if◌then◌else◌, arith, ◌⊎◌,
  inl, inr,
}
use large_project.Prelude.Outcome.{ok, >>=-eq-ok}
use large_project.Prelude.Param.{pgsize, kernbase, phystop}
use large_project.Disk.{update}
use large_project.Kalloc.{Kmem, kalloc, kfree, kfree_check, fill_page}

-- A page that may be freed: aligned, behind the kernel's image, below PHYSTOP.
pub record IsPage (end v : ℕ) : Type 0 where
  pub aligned : v % pgsize ≡ 0
  pub above : end ≤ v
  pub below : v < kernbase + phystop

-- `v` is none of the pages.
abbrev pub NotIn : ℕ → List ℕ → Type 0
NotIn v [] = Unit
NotIn v (x ∷ xs) = (v ≢ x) × NotIn v xs

-- The pointers from `head` run through exactly the listed pages, all different, and end in null.
abbrev pub Chain : ℕ → (ℕ → ℕ) → ℕ → List ℕ → Type 0
Chain end word head [] = head ≡ 0
Chain end word head (x ∷ xs) = (head ≡ x) × IsPage end x × NotIn x xs × Chain end word (word x) xs

abbrev pub Free : ℕ → Kmem → List ℕ → Type 0
Free end k xs = Chain end k.word k.freelist xs

-- Two pages are equal or do not overlap.
page_apart : (end v x : ℕ) → IsPage end v → IsPage end x → v ≢ x → (x < v) ⊎ (v + pgsize ≤ x)
page_apart end v x p q ne = omega arith

-- Writing into a page that is not on the chain leaves the chain.
Chain-fill :
    (end v w : ℕ) (word : ℕ → ℕ) (head : ℕ) (xs : List ℕ)
    → IsPage end v
    → NotIn v xs
    → Chain end word head xs
    → Chain end (λ a. if v == a then w else fill_page word v a) head xs
unfolding fill_page
Chain-fill end v w word head [] p n c = c
Chain-fill end v w word head (x ∷ xs) p n c = (
  c.0,
  c.1,
  c.2,
  subst (λ h. Chain end (λ a. if v == a then w else fill_page word v a) h xs) (sym same)
      (Chain-fill end v w word (word x) xs p n.1 c.3),
)
  where
    same : (if v == x then w else fill_page word v x) ≡ word x
    same = ground (arith, page_apart end v x p c.1 n.0)

kfree_check-ok : (end v : ℕ) → kernbase ≤ end → IsPage end v → kfree_check end v ≡ ok tt
unfolding kfree_check
kfree_check-ok end v h p = ground (arith, p.aligned, p.above, p.below)

kfree_check-IsPage : (end v : ℕ) → kfree_check end v ≡ ok tt → IsPage end v
unfolding kfree_check
kfree_check-IsPage end v h = record {
  aligned = ground arith;
  above = ground arith;
  below = ground arith;
}

-- kfree() of a page that is not free puts it in front of the free list.
pub kfree-Free :
    (end v : ℕ) (k : Kmem) (xs : List ℕ)
    → kernbase ≤ end
    → IsPage end v
    → NotIn v xs
    → Free end k xs
    → (k' : Kmem) × (kfree end v k ≡ ok k') × Free end k' (v ∷ xs)
unfolding kfree
kfree-Free end v k xs h p n c = (
  record k { word = update (fill_page k.word v) v k.freelist; freelist = v },
  rw (kfree_check-ok end v h p),
  (refl, p, n, rest),
)
  where
    here : update (fill_page k.word v) v k.freelist v ≡ k.freelist
    here = ground arith

    rest :
        Chain end
          (update (fill_page k.word v) v k.freelist)
          (update (fill_page k.word v) v k.freelist v)
          xs
    rest =
        subst (λ t. Chain end (update (fill_page k.word v) v k.freelist) t xs) (sym here)
          (Chain-fill end v k.freelist k.word k.freelist xs p n c)

-- kfree() panics exactly on what is no page of the allocator.
pub kfree-IsPage : (end v : ℕ) (k : Kmem) {k' : Kmem} → kfree end v k ≡ ok k' → IsPage end v
unfolding kfree
kfree-IsPage end v k h =
    let (u, e, f) = >>=-eq-ok (kfree_check end v) _ h in kfree_check-IsPage end v e

-- kalloc() takes the first page of the free list, which is then on it no more; it returns 0 and
-- changes nothing if the list is empty.
pub kalloc-Free :
    (end : ℕ) (k : Kmem) (xs : List ℕ)
    → 0 < end
    → Free end k xs
    → ((xs ≡ []) × (kalloc k ≡ (0, k)))
      ⊎ ((x : ℕ) × (ys : List ℕ) × (k' : Kmem) × (xs ≡ x ∷ ys)
          × (kalloc k ≡ (x, k'))
          × Free end k' ys
          × NotIn x ys
          × IsPage end x)
unfolding kalloc
kalloc-Free end k [] h c = inl (refl, ground arith)
kalloc-Free end k (x ∷ ys) h c =
    inr
      (x, ys, record k { freelist = k.word x }, refl, ground (arith, c.0, c.1.above), c.3, c.2, c.1)
