-- ===== src/Vm.antt =====
-- vm.c: page tables in the pages of kalloc.c. A table has 1024 words; `pgdir` is the address of the
-- directory. The copy of a page is over words; cprintf() has no effect that is modelled.
pub mod Space
pub mod Walk
pub mod Map
mod Tests
use Prim.Native.String.{String}
use large_project.Prelude.{
  ℕ, zero, suc, ◌+◌, ◌-◌, ◌*◌, ◌/◌, ◌%◌, Bool, true, false, not, ◌&&◌, List, [], ◌∷◌, ◌++◌, min,
  ltb, leb, ◌==◌, if◌then◌else◌,
}
use large_project.Prelude.Outcome.{Outcome, ok, panic, ◌>>=◌, ◌>>◌, panic_if}
use large_project.Prelude.Param.{pgsize, kernbase, phystop, uint_mod}
use large_project.Disk.{update}
use large_project.Fs.Bits.{test_bit, set_bit, clear_bit}
use large_project.Kalloc.{Kmem, kalloc, kfree, v2p, pg_round_up, pg_round_down}

-- EXTMEM, KERNLINK, DEVSPACE
abbrev pub extmem : ℕ
extmem = 0x100000

abbrev pub kernlink : ℕ
kernlink = kernbase + extmem

abbrev pub devspace : ℕ
devspace = 0xFE000000

-- PDX and PTX, and the address that PGADDR makes of a directory index
abbrev pub pdx : ℕ → ℕ
pdx va = va / 4194304 % 1024

abbrev pub ptx : ℕ → ℕ
ptx va = va / pgsize % 1024

abbrev pub pgaddr : ℕ → ℕ
pgaddr d = d * 4194304 % uint_mod

-- PTE_ADDR and PTE_FLAGS, and the bits of an entry
abbrev pub pte_addr : ℕ → ℕ
pte_addr pte = pte / pgsize * pgsize

abbrev pub pte_flags : ℕ → ℕ
pte_flags pte = pte % pgsize

abbrev pub pte_w : ℕ
pte_w = 2

abbrev pub pte_w_u : ℕ
pte_w_u = 6

-- pte & PTE_P, pte & PTE_U
unfoldable pub is_present : ℕ → Bool
is_present pte = pte % 2 == 1

unfoldable pub is_user : ℕ → Bool
is_user pte = pte / 4 % 2 == 1

-- x | y for a `y` of `n` bits
unfoldable pub bit_or : ℕ → ℕ → ℕ → ℕ
bit_or zero x y = x
bit_or (suc n) x y = bit_or n (x / 2) (y / 2) * 2 + (if x % 2 + y % 2 == 0 then 0 else 1)

-- pa | perm | PTE_P
unfoldable pub make_pte : ℕ → ℕ → ℕ
unfolding bit_or
make_pte pa perm = bit_or 12 pa perm / 2 * 2 + 1

-- P2V() of memlayout.h
unfoldable pub p2v : ℕ → Outcome ℕ
p2v a = if ltb kernbase a then panic "P2V on address > KERNBASE" else ok ((a + kernbase) % uint_mod)

-- memset(v, 0, PGSIZE) and memmove(d, s, PGSIZE), by words
unfoldable pub zero_page : (ℕ → ℕ) → ℕ → ℕ → ℕ
zero_page word v a = if leb v a && ltb a (v + pgsize) then 0 else word a

unfoldable pub copy_page : (ℕ → ℕ) → ℕ → ℕ → ℕ → ℕ
copy_page word d s a = if leb d a && ltb a (d + pgsize) then word (s + (a - d)) else word a

abbrev pub poke : ℕ → ℕ → Kmem → Kmem
poke a v k = record k { word = update k.word a v }

-- walkpgdir() where the entry of the directory is not present: a page for the table, unless `alloc` is
-- 0 or none is left.
unfoldable pub new_table : ℕ → ℕ → Bool → Kmem → Outcome (ℕ × Kmem)
unfolding kalloc v2p zero_page
new_table pde va false k = ok (0, k)
new_table pde va true k =
    let pgtab = (kalloc k).0 in
    let k' = (kalloc k).1 in
    if pgtab == 0 then ok (0, k') else (do
      pa ← v2p pgtab
      ok (
        pgtab + 4 * ptx va,
        poke pde (set_bit (set_bit (set_bit pa 0) 1) 2)
            (record k' { word = zero_page k'.word pgtab }),
      ))

-- The entry's address, 0 if there is none.
unfoldable pub walkpgdir : ℕ → ℕ → Bool → Kmem → Outcome (ℕ × Kmem)
unfolding is_present p2v new_table
walkpgdir pgdir va alloc k =
    let pde = pgdir + 4 * pdx va in
    if is_present (k.word pde)
    then (do pgtab ← p2v (pte_addr (k.word pde)); ok (pgtab + 4 * ptx va, k))
    else new_table pde va alloc k

-- A turn of the loop of mappages() with the entry's address: false is the result -1.
unfoldable pub set_pte : ℕ → ℕ → ℕ → Kmem → (Kmem → Outcome (Bool × Kmem)) → Outcome (Bool × Kmem)
unfolding is_present make_pte
set_pte pte pa perm k go =
    if pte == 0
    then ok (false, k)
    else if is_present (k.word pte)
    then panic "remap"
    else go (poke pte (make_pte pa perm) k)

-- The loop of mappages(), with fuel.
unfoldable pub map_from : ℕ → ℕ → ℕ → ℕ → ℕ → ℕ → Kmem → Outcome (Bool × Kmem)
unfolding walkpgdir set_pte
map_from zero pgdir a last pa perm k = panic "fuel"
map_from (suc fuel) pgdir a last pa perm k = walkpgdir pgdir a true k >>= λ r.
    set_pte r.0 pa perm r.1 λ k'.
      let rest =
        map_from fuel pgdir ((a + pgsize) % uint_mod) last ((pa + pgsize) % uint_mod) perm k' in
      if a == last then ok (true, k') else rest

-- The last page that mappages() maps, and the number of turns of its loop.
abbrev pub last_page : ℕ → ℕ → ℕ
last_page va size = (va + size + uint_mod - 1) % uint_mod / pgsize * pgsize

abbrev pub turns : ℕ → ℕ → ℕ
turns va size = (last_page va size + uint_mod - pg_round_down va) % uint_mod / pgsize + 1

unfoldable pub mappages : ℕ → ℕ → ℕ → ℕ → ℕ → Kmem → Outcome (Bool × Kmem)
unfolding pg_round_down map_from
mappages pgdir va size pa perm k =
    map_from (turns va size) pgdir (pg_round_down va) (last_page va size) pa perm k

module _ (end : ℕ) where
  -- What deallocuvm() does with an entry that is present.
  unfoldable pub free_pte : ℕ → Kmem → Outcome Kmem
  unfolding p2v kfree
  free_pte pte k =
      if pte_addr (k.word pte) == 0
      then panic "kfree"
      else (do v ← p2v (pte_addr (k.word pte)); k' ← kfree end v k; ok (poke pte 0 k'))

  -- A turn of the loop with the entry's address: the address to go on with, before `a += PGSIZE`.
  unfoldable pub clear_pte : ℕ → ℕ → Kmem → Outcome (ℕ × Kmem)
  unfolding is_present free_pte
  clear_pte a pte k =
      if pte == 0
      then ok ((pgaddr (pdx a + 1) + uint_mod - pgsize) % uint_mod, k)
      else if is_present (k.word pte)
      then (do k' ← free_pte pte k; ok (a, k'))
      else ok (a, k)

  -- The loop of deallocuvm() from `a` on; the fuel bounds the pages.
  unfoldable pub dealloc_from : ℕ → ℕ → ℕ → ℕ → Kmem → Outcome Kmem
  unfolding walkpgdir clear_pte
  dealloc_from zero pgdir a oldsz k = if ltb a oldsz then panic "fuel" else ok k
  dealloc_from (suc fuel) pgdir a oldsz k =
      if ltb a oldsz
      then (walkpgdir pgdir a false k >>= λ r. clear_pte a r.0 r.1 >>= λ s.
          dealloc_from fuel pgdir ((s.0 + pgsize) % uint_mod) oldsz s.1)
      else ok k

  unfoldable pub deallocuvm : ℕ → ℕ → ℕ → Kmem → Outcome (ℕ × Kmem)
  unfolding pg_round_up dealloc_from
  deallocuvm pgdir oldsz newsz k = if leb oldsz newsz then ok (oldsz, k) else (do
    k' ← dealloc_from (oldsz / pgsize + 1) pgdir (pg_round_up newsz) oldsz k
    ok (newsz, k'))

  -- The loop of freevm() over the directory from entry `i` on.
  unfoldable pub free_tables : ℕ → ℕ → ℕ → Kmem → Outcome Kmem
  unfolding is_present p2v kfree
  free_tables pgdir i zero k = ok k
  free_tables pgdir i (suc n) k =
      (if is_present (k.word (pgdir + 4 * i))
        then (p2v (pte_addr (k.word (pgdir + 4 * i))) >>= λ v. kfree end v k)
        else ok k)
      >>= λ k'. free_tables pgdir (i + 1) n k'

  unfoldable pub freevm : ℕ → Kmem → Outcome Kmem
  unfolding deallocuvm free_tables kfree
  freevm pgdir k = do
    panic_if (pgdir == 0) "freevm: no pgdir"
    r ← deallocuvm pgdir kernbase 0 k
    k' ← free_tables pgdir 0 1024 r.1
    kfree end pgdir k'
