-- ===== src/Vm/Tests.antt =====
-- A page of a user in an empty directory.
use large_project.Prelude.{ℕ, refl, [], ◌∷◌, true, arith}
use large_project.Prelude.Param.{pgsize}
use large_project.Kalloc.{Kmem}
use large_project.Kalloc.Chain.{Free}
use large_project.Vm.{is_present, mappages}
use large_project.Vm.Map.{MapsPage, mappages-uva2ka}

-- One page is free; all words are 0.
abbrev free_page : ℕ
free_page = 0x80200000

abbrev memory : Kmem
memory = record { word = λ a. 0; freelist = free_page; use_lock = true }

memory-Free : Free 0x80100000 memory (free_page ∷ [])
memory-Free =
    (refl, record { aligned = omega arith; above = omega arith; below = omega arith }, tt, refl)

mappages-uva2ka_example :
    MapsPage 0x80300000 0x1000 0x5000 memory
      (free_page ∷ [])
      (mappages 0x80300000 0x1000 pgsize 0x5000 6 memory)
unfolding is_present
mappages-uva2ka_example =
    mappages-uva2ka 0x80300000 0x1000 0x5000 6 0x80100000 memory (free_page ∷ []) (omega arith)
      memory-Free (λ e. absurd (omega arith), tt) refl refl (omega arith) refl (omega arith)
      (omega arith) refl (λ y. absurd (cc y))
