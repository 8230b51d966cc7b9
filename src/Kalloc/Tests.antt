-- ===== src/Kalloc/Tests.antt =====
-- A kernel that ends at 0x80100000, and pages behind it.
use large_project.Prelude.{
  ℕ, ◌+◌, ◌-◌, ◌/◌, ◌%◌, ◌<◌, ◌≤◌, ◌≡◌, ◌⊎◌, refl, false, List, [], ◌∷◌, arith,
}
use large_project.Prelude.Outcome.{ok}
use large_project.Prelude.Param.{pgsize}
use large_project.Kalloc.{Kmem, kalloc, kfree, freerange, pg_round_up}
use large_project.Kalloc.Chain.{Free, NotIn, IsPage, kfree-Free, kalloc-Free}
use large_project.Kalloc.Range.{pages_from, freerange-Free}

abbrev end_of_kernel : ℕ
end_of_kernel = 0x80100000

abbrev no_pages : Kmem
no_pages = record { word = λ a. 0; freelist = 0; use_lock = false }

abbrev one_page : Kmem
one_page = record { word = λ a. 0; freelist = 0x80101000; use_lock = false }

first-IsPage : IsPage end_of_kernel 0x80101000
first-IsPage = record { aligned = refl; above = omega arith; below = omega arith }

second-IsPage : IsPage end_of_kernel 0x80102000
second-IsPage = record { aligned = refl; above = omega arith; below = omega arith }

one_page-Free : Free end_of_kernel one_page (0x80101000 ∷ [])
one_page-Free = (refl, first-IsPage, tt, refl)

kfree-Free_example :
    (k' : Kmem) × (kfree end_of_kernel 0x80102000 one_page ≡ ok k')
    × Free end_of_kernel k' (0x80102000 ∷ 0x80101000 ∷ [])
kfree-Free_example =
    kfree-Free end_of_kernel 0x80102000 one_page (0x80101000 ∷ []) (omega arith) second-IsPage
      ((λ e. omega arith), tt) one_page-Free

kalloc-Free_example :
    ((◌≡◌ {A = List ℕ} (0x80101000 ∷ []) []) × (kalloc one_page ≡ (0, one_page)))
    ⊎ ((x : ℕ) × (ys : List ℕ) × (k' : Kmem) × (◌≡◌ {A = List ℕ} (0x80101000 ∷ []) (x ∷ ys))
        × (kalloc one_page ≡ (x, k'))
        × Free end_of_kernel k' ys
        × NotIn x ys
        × IsPage end_of_kernel x)
kalloc-Free_example =
    kalloc-Free end_of_kernel one_page (0x80101000 ∷ []) (omega arith) one_page-Free

-- kinit2() of everything between two addresses that are not aligned.
freerange-Free_example :
    let p = pg_round_up 0x80100800 in
    (k' : Kmem) × (freerange end_of_kernel 0x80100800 0x80104100 no_pages ≡ ok k')
    × Free end_of_kernel k' (pages_from ((0x80104100 - p) / pgsize) p [])
    × (0x80100800 ≤ p)
    × (p < 0x80100800 + pgsize)
    × (p % pgsize ≡ 0)
freerange-Free_example =
    freerange-Free end_of_kernel (omega arith) 0x80100800 0x80104100 no_pages (omega arith)
      (omega arith) (omega arith) refl
