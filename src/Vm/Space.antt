-- ===== src/Vm/Space.antt =====
-- vm.c: the address space of a process, and growproc() of proc.c and sys_sbrk() of sysproc.c over it.
use large_project.Prelude.{
  ℕ, zero, suc, ◌+◌, ◌-◌, ◌/◌, ◌%◌, Bool, true, false, not, Option, none, some, List, [], ◌∷◌, min,
  ltb, leb, ◌==◌, if◌then◌else◌,
}
use large_project.Prelude.Int.{ℤ, pos, negsuc}
use large_project.Prelude.Outcome.{Outcome, ok, panic, ◌>>=◌, ◌>>◌, panic_if}
use large_project.Prelude.Param.{pgsize, kernbase, phystop, uint_mod}
use large_project.Fs.Bits.{clear_bit}
use large_project.Kalloc.{Kmem, kalloc, kfree, v2p, pg_round_up, pg_round_down}
use large_project.Vm.{
  extmem, kernlink, devspace, pte_addr, pte_flags, pte_w, pte_w_u, is_present, is_user, p2v,
  zero_page, copy_page, poke, walkpgdir, mappages, deallocuvm, freevm,
}

-- An entry of `kmap`.
pub record Kmap : Type 0 where
  pub virt : ℕ
  pub phys_start : ℕ
  pub phys_end : ℕ
  pub perm : ℕ

-- The table, for the address `data` where the kernel's data begins.
abbrev pub kmap : ℕ → List Kmap
kmap data_start =
    record { virt = kernbase; phys_start = 0; phys_end = extmem; perm = pte_w }
    ∷ record { virt = kernlink; phys_start = extmem; phys_end = data_start - kernbase; perm = 0 }
    ∷ record {
      virt = data_start;
      phys_start = data_start - kernbase;
      phys_end = phystop;
      perm = pte_w;
    }
    ∷ record { virt = devspace; phys_start = devspace; phys_end = 0; perm = pte_w }
    ∷ []

-- A copy of a page for `i` in the table `d`: the page, its entry, and the result of mappages().
unfoldable pub give_page : ℕ → ℕ → ℕ → ℕ → Kmem → Outcome (Bool × Kmem)
unfolding v2p mappages
give_page pgdir a mem perm k = do pa ← v2p mem; mappages pgdir a pgsize pa perm k

module _ (end data_start : ℕ) where
  -- The loop of setupkvm().
  unfoldable pub map_kernel : ℕ → List Kmap → Kmem → Outcome (ℕ × Kmem)
  unfolding mappages freevm
  map_kernel pgdir [] k = ok (pgdir, k)
  map_kernel pgdir (m ∷ ms) k =
      let rest = map_kernel pgdir ms in
      mappages pgdir m.virt ((m.phys_end + uint_mod - m.phys_start) % uint_mod) m.phys_start m.perm
        k
      >>= λ r. if r.0 then rest r.1 else (do k' ← freevm end pgdir r.1; ok (0, k'))

  -- P2V(PHYSTOP) is below DEVSPACE, as the test in between asks.
  unfoldable pub setupkvm : Kmem → Outcome (ℕ × Kmem)
  unfolding kalloc zero_page map_kernel
  setupkvm k =
      let pgdir = (kalloc k).0 in
      let k' = (kalloc k).1 in
      if pgdir == 0
      then ok (0, k')
      else (p2v phystop >>= λ top.
          panic_if (ltb devspace top) "PHYSTOP too high"
          >> map_kernel pgdir (kmap data_start) (record k' { word = zero_page k'.word pgdir }))

  -- What allocuvm() does when it has no memory: the result is 0.
  unfoldable pub give_up : ℕ → ℕ → ℕ → Kmem → Outcome (ℕ × Kmem)
  unfolding deallocuvm
  give_up pgdir newsz oldsz k = do r ← deallocuvm end pgdir newsz oldsz k; ok (0, r.1)

  -- The loop of allocuvm() from `a` on; the fuel bounds the pages.
  unfoldable pub alloc_from : ℕ → ℕ → ℕ → ℕ → ℕ → Kmem → Outcome (ℕ × Kmem)
  unfolding kalloc kfree zero_page give_page give_up
  alloc_from zero pgdir a oldsz newsz k = if ltb a newsz then panic "fuel" else ok (newsz, k)
  alloc_from (suc fuel) pgdir a oldsz newsz k =
      let mem = (kalloc k).0 in
      let k' = (kalloc k).1 in
      if not (ltb a newsz)
      then ok (newsz, k)
      else if mem == 0
      then give_up pgdir newsz oldsz k'
      else (give_page pgdir a mem pte_w_u (record k' { word = zero_page k'.word mem }) >>= λ r.
          let rest = alloc_from fuel pgdir ((a + pgsize) % uint_mod) oldsz newsz r.1 in
          if r.0
          then rest
          else (do s ← give_up pgdir newsz oldsz r.1; k2 ← kfree end mem s.1; ok (0, k2)))

  unfoldable pub allocuvm : ℕ → ℕ → ℕ → Kmem → Outcome (ℕ × Kmem)
  unfolding pg_round_up alloc_from
  allocuvm pgdir oldsz newsz k =
      if leb kernbase newsz
      then ok (0, k)
      else if ltb newsz oldsz
      then ok (oldsz, k)
      else alloc_from (newsz / pgsize + 1) pgdir (pg_round_up oldsz) oldsz newsz k

  -- `bad:` in copyuvm()
  unfoldable pub bad_copy : ℕ → Kmem → Outcome (ℕ × Kmem)
  unfolding freevm
  bad_copy d k = do k' ← freevm end d k; ok (0, k')

  -- What the loop of copyuvm() does for the entry `pte` of page `i`.
  unfoldable pub copy_pte : ℕ → ℕ → ℕ → Kmem → (Kmem → Outcome (ℕ × Kmem)) → Outcome (ℕ × Kmem)
  unfolding is_present kalloc kfree p2v copy_page give_page bad_copy
  copy_pte d i pte k go =
      let mem = (kalloc k).0 in
      let k' = (kalloc k).1 in
      if pte == 0
      then panic "copyuvm: pte should exist"
      else if not (is_present (k.word pte))
      then panic "copyuvm: page not present"
      else if mem == 0
      then bad_copy d k'
      else (p2v (pte_addr (k.word pte)) >>= λ from.
          give_page d i mem (pte_flags (k.word pte))
            (record k' { word = copy_page k'.word mem from })
          >>= λ r. if r.0 then go r.1 else (do k2 ← kfree end mem r.1; bad_copy d k2))

  unfoldable pub copy_from : ℕ → ℕ → ℕ → ℕ → ℕ → Kmem → Outcome (ℕ × Kmem)
  unfolding walkpgdir copy_pte
  copy_from zero pgdir d i sz k = if ltb i sz then panic "fuel" else ok (d, k)
  copy_from (suc fuel) pgdir d i sz k =
      if ltb i sz
      then (walkpgdir pgdir i false k >>= λ r.
          copy_pte d i r.0 r.1 (λ k'. copy_from fuel pgdir d ((i + pgsize) % uint_mod) sz k'))
      else ok (d, k)

  unfoldable pub copyuvm : ℕ → ℕ → Kmem → Outcome (ℕ × Kmem)
  unfolding setupkvm copy_from
  copyuvm pgdir sz k = setupkvm k >>= λ r.
      if r.0 == 0 then ok (0, r.1) else copy_from (sz / pgsize + 1) pgdir r.0 0 sz r.1

  -- growproc() of a process with `pgdir` and `sz`: its new size, `none` for -1. The last call,
  -- switchuvm(), is of the hardware's registers. `sz + n` wraps like a `uint`.
  unfoldable pub growproc : ℕ → ℕ → ℤ → Kmem → Outcome (Option ℕ × Kmem)
  unfolding allocuvm deallocuvm
  growproc pgdir sz (pos zero) k = ok (some sz, k)
  growproc pgdir sz (pos (suc n)) k = do
    r ← allocuvm pgdir sz ((sz + suc n) % uint_mod) k
    ok (if r.0 == 0 then none else some r.0, r.1)
  growproc pgdir sz (negsuc n) k = do
    r ← deallocuvm end pgdir sz ((sz + uint_mod - suc n) % uint_mod) k
    ok (if r.0 == 0 then none else some r.0, r.1)

-- clearpteu(); PTE_U is bit 2.
unfoldable pub clearpteu : ℕ → ℕ → Kmem → Outcome Kmem
unfolding walkpgdir clear_bit
clearpteu pgdir uva k = do
  r ← walkpgdir pgdir uva false k
  panic_if (r.0 == 0) "clearpteu"
  ok (poke r.0 (clear_bit (r.1.word r.0) 2) r.1)

-- uva2ka(): the kernel's address of a user's page, 0 if there is none. Where walkpgdir() gives the null
-- pointer the code reads the word at address 0.
unfoldable pub uva2ka : ℕ → ℕ → Kmem → Outcome ℕ
unfolding walkpgdir is_present is_user p2v
uva2ka pgdir uva k = walkpgdir pgdir uva false k >>= λ r.
    if not (is_present (r.1.word r.0))
    then ok 0
    else if not (is_user (r.1.word r.0))
    then ok 0
    else p2v (pte_addr (r.1.word r.0))

-- A call memmove(dst, src, n).
abbrev pub Move : Type 0
Move = ℕ × ℕ × ℕ

-- The loop of copyout() with `len` bytes to go from `buf`: its result, and its calls of memmove().
unfoldable pub copyout_from : ℕ → ℕ → ℕ → ℕ → ℕ → Kmem → Outcome (Bool × List Move)
unfolding pg_round_down uva2ka
copyout_from zero pgdir va buf len k = if len == 0 then ok (true, []) else panic "fuel"
copyout_from (suc fuel) pgdir va buf zero k = ok (true, [])
copyout_from (suc fuel) pgdir va buf (suc l) k =
    let va0 = pg_round_down va in
    let n = min (pgsize - (va - va0)) (suc l) in
    (uva2ka pgdir va0 k >>= λ pa0. if pa0 == 0 then ok (false, []) else (do
      r ← copyout_from fuel pgdir ((va0 + pgsize) % uint_mod) (buf + n) (suc l - n) k
      ok (r.0, (pa0 + (va - va0), buf, n) ∷ r.1)))

unfoldable pub copyout : ℕ → ℕ → ℕ → ℕ → Kmem → Outcome (Bool × List Move)
unfolding copyout_from
copyout pgdir va buf len k = copyout_from len pgdir va buf len k
