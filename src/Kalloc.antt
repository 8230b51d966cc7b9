-- ===== src/Kalloc.antt =====
-- kalloc.c: the allocator of physical pages. A free page holds the address of the next one in its
-- first word, so the free list lives in the memory that it manages.
pub mod Chain
pub mod Range
mod Tests
use large_project.Prelude.{
  ℕ, zero, suc, ◌+◌, ◌-◌, ◌*◌, ◌/◌, ◌%◌, Bool, true, false, not, ◌&&◌, ltb, leb, ◌==◌,
  if◌then◌else◌,
}
use large_project.Prelude.Outcome.{Outcome, ok, panic, ◌>>=◌, ◌>>◌, panic_if}
use large_project.Prelude.Param.{pgsize, kernbase, phystop, uint_mod}
use large_project.Disk.{update}

-- `kmem`, with the words of memory; address 0 is the null pointer. Every section under `kmem.lock`
-- is one step, so `use_lock` makes no difference to it.
pub record Kmem : Type 0 where
  pub word : ℕ → ℕ
  pub freelist : ℕ
  pub use_lock : Bool

-- PGROUNDUP, on `uint`
unfoldable pub pg_round_up : ℕ → ℕ
pg_round_up sz = (sz + pgsize - 1) % uint_mod / pgsize * pgsize

-- PGROUNDDOWN
unfoldable pub pg_round_down : ℕ → ℕ
pg_round_down a = a / pgsize * pgsize

-- V2P() of memlayout.h
unfoldable pub v2p : ℕ → Outcome ℕ
v2p a = if ltb a kernbase then panic "V2P on address < KERNBASE" else ok (a - kernbase)

-- memset(v, 1, PGSIZE), by words
unfoldable pub fill_page : (ℕ → ℕ) → ℕ → ℕ → ℕ
fill_page word v a = if leb v a && ltb a (v + pgsize) then 0x01010101 else word a

-- kalloc(): the page, 0 if there is none.
unfoldable pub kalloc : Kmem → ℕ × Kmem
kalloc k = let r = k.freelist in if r == 0 then (r, k) else (r, record k { freelist = k.word r })

module _ (end : ℕ) where
  -- The test at the head of kfree(), in C's order of evaluation.
  unfoldable pub kfree_check : ℕ → Outcome (Unit {0})
  unfolding v2p
  kfree_check v =
      if not (v % pgsize == 0)
      then panic "kfree"
      else if ltb v end
      then panic "kfree"
      else (do pa ← v2p v; panic_if (leb phystop pa) "kfree")

  unfoldable pub kfree : ℕ → Kmem → Outcome Kmem
  kfree v k = do
    kfree_check v
    ok (record k { word = update (fill_page k.word v) v k.freelist; freelist = v })

  -- The loop of freerange() from `p` on; the fuel bounds the pages.
  unfoldable pub free_pages : ℕ → ℕ → ℕ → Kmem → Outcome Kmem
  free_pages zero p vend k = ok k
  free_pages (suc n) p vend k = elim (leb (p + pgsize) vend) [
    | true ↦ kfree p k >>= λ k'. free_pages n (p + pgsize) vend k'
    | false ↦ ok k
  ]

  unfoldable pub freerange : ℕ → ℕ → Kmem → Outcome Kmem
  unfolding free_pages pg_round_up
  freerange vstart vend k =
      if ltb vend vstart
      then panic "freerange"
      else free_pages (vend / pgsize) (pg_round_up vstart) vend k

  -- kinit1(); initlock() of kmem.lock has no effect that is modelled.
  unfoldable pub kinit1 : ℕ → ℕ → Kmem → Outcome Kmem
  unfolding freerange
  kinit1 vstart vend k = freerange vstart vend (record k { use_lock = false })

  unfoldable pub kinit2 : ℕ → ℕ → Kmem → Outcome Kmem
  unfolding freerange
  kinit2 vstart vend k = do k' ← freerange vstart vend k; ok (record k' { use_lock = true })
