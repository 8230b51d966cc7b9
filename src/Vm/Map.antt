-- ===== src/Vm/Map.antt =====
-- mappages() of a page, as uva2ka() sees it.
use large_project.Prelude.{
  ℕ, ◌+◌, ◌-◌, ◌*◌, ◌/◌, ◌%◌, ◌≤◌, ◌<◌, ◌≡◌, ◌≢◌, refl, sym, ap, ◌∙◌, inl, inr, Bool, true, false,
  List, [], ◌==◌, if◌then◌else◌, arith, Bool-cases, subst,
}
use large_project.Prelude.Outcome.{Outcome, ok, panic, ◌>>=◌}
use large_project.Prelude.Param.{pgsize, kernbase, uint_mod}
use large_project.Disk.{update_self, update_other}
use large_project.Fs.Bits.{set_bit}
use large_project.Kalloc.{Kmem, kalloc, v2p, pg_round_down}
use large_project.Kalloc.Chain.{IsPage, NotIn, Free, kalloc-Free}
use large_project.Vm.{
  pdx, ptx, pte_addr, is_present, make_pte, zero_page, poke, new_table, walkpgdir, set_pte,
  map_from, last_page, turns, mappages,
}
use large_project.Vm.Space.{uva2ka}
use large_project.Vm.Walk.{
  entry-other, HasTable, walkpgdir-HasTable, poke-HasTable, uva2ka-make_pte,
}

-- The value that new_table() stores for the table at physical address `pa`.
abbrev pde_of : ℕ → ℕ
pde_of pa = set_bit (set_bit (set_bit pa 0) 1) 2

pde_of-add : (pa : ℕ) → pa % pgsize ≡ 0 → pde_of pa ≡ pa + 7
unfolding set_bit
pde_of-add pa al = omega arith

pde_of-is_present : (pa : ℕ) → pa % pgsize ≡ 0 → is_present (pde_of pa) ≡ true
unfolding is_present
pde_of-is_present pa al =
    let e = pde_of-add pa al in
    let odd : (pa + 7) % 2 ≡ 1 = omega arith in ap (λ x. x % 2 == 1) e ∙ rw odd refl

pde_of-pte_addr : (pa : ℕ) → pa % pgsize ≡ 0 → pte_addr (pde_of pa) ≡ pa
pde_of-pte_addr pa al = let e = pde_of-add pa al in omega arith

v2p-ok : (x : ℕ) → kernbase ≤ x → v2p x ≡ ok (x - kernbase)
unfolding v2p
v2p-ok x le = ground arith

zero_page-inside : (word : ℕ → ℕ) (x i : ℕ) → i < 1024 → zero_page word x (x + 4 * i) ≡ 0
unfolding zero_page
zero_page-inside word x i lt = ground arith

absent : is_present 0 ≡ false
unfolding is_present
absent = refl

-- What mappages() of the page `va` has done: uva2ka() finds `pa` there; or it returned -1, as no page
-- was free for a table; or it panicked, as the page was mapped before.
abbrev pub MapsPage : ℕ → ℕ → ℕ → Kmem → List ℕ → Outcome (Bool × Kmem) → Type 0
MapsPage pgdir va pa k xs (ok (true, k')) = uva2ka pgdir va k' ≡ ok (pa + kernbase)
MapsPage pgdir va pa k xs (ok (false, k')) = xs ≡ []
MapsPage pgdir va pa k xs (panic s) =
    (pte : ℕ) × (walkpgdir pgdir va false k ≡ ok (pte, k)) × (is_present (k.word pte) ≡ true)

walkpgdir-new :
    (pgdir va : ℕ) (k : Kmem)
    → is_present (k.word (pgdir + 4 * pdx va)) ≡ false
    → walkpgdir pgdir va true k ≡ new_table (pgdir + 4 * pdx va) va true k
unfolding walkpgdir
walkpgdir-new pgdir va k n = rw n refl

round_down-page : (va : ℕ) → va % pgsize ≡ 0 → pg_round_down va ≡ va
unfolding pg_round_down
round_down-page va al = omega arith

last_page-page : (va : ℕ) → va % pgsize ≡ 0 → va < uint_mod → last_page va pgsize ≡ va
last_page-page va al lt = omega arith

turns-page : (va : ℕ) → va % pgsize ≡ 0 → va < uint_mod → turns va pgsize ≡ 1
turns-page va al lt =
    let a = round_down-page va al in
    let b = last_page-page va al lt in
    let z : (va + uint_mod - va) % uint_mod / pgsize + 1 ≡ 1 = omega arith in
    ap (λ l. (l + uint_mod - pg_round_down va) % uint_mod / pgsize + 1) b
    ∙ ap (λ d. (va + uint_mod - d) % uint_mod / pgsize + 1) a
    ∙ z

module _ (pgdir va pa perm : ℕ) where
  -- mappages() after its address is found: the loop ends with this page.
  last_turn : Kmem → Outcome (Bool × Kmem)
  last_turn k' =
      if va == va
      then ok (true, k')
      else map_from 0 pgdir ((va + pgsize) % uint_mod) va ((pa + pgsize) % uint_mod) perm k'

  module _ (dir : pgdir % pgsize ≡ 0) (pa_al : pa % pgsize ≡ 0) (low : pa < kernbase)
      (small : perm < pgsize) (user : perm / 4 % 2 ≡ 1) where
    stored :
        (table : ℕ) (k k1 : Kmem) (xs : List ℕ)
        → HasTable pgdir va table k1
        → table ≢ pgdir
        → kernbase ≤ table
        → (is_present (k1.word (table + 4 * ptx va)) ≡ true
            → MapsPage pgdir va pa k xs (panic "remap"))
        → MapsPage pgdir va pa k xs (set_pte (table + 4 * ptx va) pa perm k1 last_turn)
    unfolding set_pte last_turn
    stored table k k1 xs h ne hi remap =
        let there : (table + 4 * ptx va == 0) ≡ false = ground arith in
        elim (Bool-cases (is_present (k1.word (table + 4 * ptx va)))) [
          | inl y ↦ rw (there, y) (remap y)
          | inr n ↦
              let same : (va == va) ≡ true = ground arith in
              rw (there, n, same)
                (uva2ka-make_pte pgdir va table pa perm k1
                  (poke-HasTable pgdir va table (make_pte pa perm) k1 dir ne h) pa_al low small
                  user)
        ]

    -- A page that new_table() takes.
    taken :
        (end x : ℕ) (k k' : Kmem) (xs : List ℕ)
        → kernbase ≤ end
        → IsPage end x
        → x ≢ pgdir
        → kalloc k ≡ (x, k')
        → MapsPage pgdir va pa k xs
            (new_table (pgdir + 4 * pdx va) va true k >>= λ r. set_pte r.0 pa perm r.1 last_turn)
    unfolding new_table
    taken end x k k' xs hi page ne e =
        let there : (x == 0) ≡ false = let up = page.above in ground arith in
        rw (e, there, v2p-ok x (low_end page.above))
          (stored x k after xs has ne (low_end page.above) (λ y. absurd (never y)))
      where
        low_end : end ≤ x → kernbase ≤ x
        low_end up = omega arith

        zeroed : Kmem
        zeroed = record k' { word = zero_page k'.word x }

        after : Kmem
        after = poke (pgdir + 4 * pdx va) (pde_of (x - kernbase)) zeroed

        here : after.word (pgdir + 4 * pdx va) ≡ pde_of (x - kernbase)
        here = update_self zeroed.word (pgdir + 4 * pdx va) (pde_of (x - kernbase))

        al : (x - kernbase) % pgsize ≡ 0
        al = let a = page.aligned in let up = page.above in omega arith

        has : HasTable pgdir va x after
        has = (
          ap is_present here ∙ pde_of-is_present (x - kernbase) al,
          (let a = ap pte_addr here ∙ pde_of-pte_addr (x - kernbase) al in
              let up = page.above in omega arith),
          (let b = page.below in omega arith),
          page.aligned,
        )

        never : is_present (after.word (x + 4 * ptx va)) ≡ true → ⊥
        never y =
            let w =
              update_other zeroed.word (pgdir + 4 * pdx va) (pde_of (x - kernbase)) (x + 4 * ptx va)
                (λ q.
                  entry-other pgdir x (pdx va) (ptx va) dir page.aligned ne (omega arith)
                    (omega arith) (sym q))
              ∙ zero_page-inside k'.word x (ptx va) (omega arith) in
            cc (y, w, absent)

    -- The directory has no table for the page.
    without_table :
        (end : ℕ) (k : Kmem) (xs : List ℕ)
        → kernbase ≤ end
        → Free end k xs
        → NotIn pgdir xs
        → MapsPage pgdir va pa k xs
            (new_table (pgdir + 4 * pdx va) va true k >>= λ r. set_pte r.0 pa perm r.1 last_turn)
    unfolding new_table set_pte
    without_table end k xs hi free out = elim (kalloc-Free end k xs (omega arith) free) [
      | inl (none_left, e) ↦ full none_left e
      | inr (x, ys, k', exs, e, rest, apart, page) ↦
          taken end x k k' xs hi page (λ q. (subst (NotIn pgdir) exs out).0 (sym q)) e
    ]
      where
        full :
            xs ≡ []
            → kalloc k ≡ (0, k)
            → MapsPage pgdir va pa k xs (
                new_table (pgdir + 4 * pdx va) va true k >>= λ r. set_pte r.0 pa perm r.1 last_turn)
        full none_left e = rw e none_left

    -- The loop of mappages() for one page.
    one_turn :
        (end : ℕ) (k : Kmem) (xs : List ℕ)
        → kernbase ≤ end
        → Free end k xs
        → NotIn pgdir xs
        → (is_present (k.word (pgdir + 4 * pdx va)) ≡ true
            → (pte_addr (k.word (pgdir + 4 * pdx va)) < kernbase)
              × (pte_addr (k.word (pgdir + 4 * pdx va)) + kernbase ≢ pgdir))
        → MapsPage pgdir va pa k xs
            (walkpgdir pgdir va true k >>= λ r. set_pte r.0 pa perm r.1 last_turn)
    one_turn end k xs hi free out sound = elim (Bool-cases (is_present (k.word pde))) [
      | inl y ↦
          let (lt, ne) = sound y in
          let has : HasTable pgdir va (pte_addr (k.word pde) + kernbase) k =
            (y, refl, omega arith, omega arith) in
          subst (λ r. MapsPage pgdir va pa k xs (r >>= λ r. set_pte r.0 pa perm r.1 last_turn))
            (sym (walkpgdir-HasTable pgdir va (pte_addr (k.word pde) + kernbase) true k has))
            (stored (pte_addr (k.word pde) + kernbase) k k xs has ne (omega arith) (λ z. (
              pte_addr (k.word pde) + kernbase + 4 * ptx va,
              walkpgdir-HasTable pgdir va (pte_addr (k.word pde) + kernbase) false k has,
              z,
            )))
      | inr n ↦
          subst (λ r. MapsPage pgdir va pa k xs (r >>= λ r. set_pte r.0 pa perm r.1 last_turn))
            (sym (walkpgdir-new pgdir va k n)) (without_table end k xs hi free out)
    ]
      where
        pde : ℕ
        pde = pgdir + 4 * pdx va

  mappages-one :
      (k : Kmem)
      → va % pgsize ≡ 0
      → va < uint_mod
      → mappages pgdir va pgsize pa perm k
        ≡ (walkpgdir pgdir va true k >>= λ r. set_pte r.0 pa perm r.1 last_turn)
  unfolding mappages map_from last_turn
  mappages-one k al lt =
      ap (λ n. map_from n pgdir (pg_round_down va) (last_page va pgsize) pa perm k)
        (turns-page va al lt)
      ∙ ap (λ a. map_from 1 pgdir a (last_page va pgsize) pa perm k) (round_down-page va al)
      ∙ ap (λ l. map_from 1 pgdir va l pa perm k) (last_page-page va al lt)

-- Where the free list is sound, let `va` be a page-aligned 32-bit address, `pa` page-aligned and below
-- KERNBASE, the permissions let the user in, the page directory be aligned and not on the free list,
-- and its entry for `va`, if it is present, point to a table below KERNBASE that is not the directory.
-- If mappages() of this one page returns 0, then uva2ka() of `va` gives the kernel's address of `pa`,
-- whether the table was there or was taken from the free list. It returns -1 only where the free list
-- is empty, and panics only where the page was mapped before.
pub mappages-uva2ka :
    (pgdir va pa perm end : ℕ) (k : Kmem) (xs : List ℕ)
    → kernbase ≤ end
    → Free end k xs
    → NotIn pgdir xs
    → pgdir % pgsize ≡ 0
    → va % pgsize ≡ 0
    → va < uint_mod
    → pa % pgsize ≡ 0
    → pa < kernbase
    → perm < pgsize
    → perm / 4 % 2 ≡ 1
    → (is_present (k.word (pgdir + 4 * pdx va)) ≡ true
        → (pte_addr (k.word (pgdir + 4 * pdx va)) < kernbase)
          × (pte_addr (k.word (pgdir + 4 * pdx va)) + kernbase ≢ pgdir))
    → MapsPage pgdir va pa k xs (mappages pgdir va pgsize pa perm k)
mappages-uva2ka pgdir va pa perm end k xs hi free out dir va_al va_lt pa_al low small user sound =
    subst (MapsPage pgdir va pa k xs) (sym (mappages-one pgdir va pa perm k va_al va_lt))
      (one_turn pgdir va pa perm dir pa_al low small user end k xs hi free out sound)
