-- ===== src/Vm/Walk.antt =====
-- Entries of page tables: their parts, and the address of an entry.
use large_project.Prelude.{
  ℕ, zero, suc, ◌+◌, ◌*◌, ◌/◌, ◌%◌, ◌<◌, ◌≡◌, ◌≢◌, refl, sym, ap, ◌∙◌, Bool, true, false, not,
  if◌then◌else◌, arith,
}
use large_project.Prelude.Outcome.{Outcome, ok, ◌>>=◌}
use large_project.Prelude.Param.{pgsize, kernbase}
use large_project.Disk.{update_self, update_other}
use large_project.Kalloc.{Kmem}
use large_project.Vm.{
  pdx, ptx, pte_addr, is_present, is_user, bit_or, make_pte, p2v, poke, walkpgdir,
}
use large_project.Vm.Space.{uva2ka}

-- x * 2 ^ n
shift : ℕ → ℕ → ℕ
shift zero x = x
shift (suc n) x = shift n x * 2

bit_or-shift : (n x y : ℕ) → y < shift n 1 → bit_or n (shift n x) y ≡ shift n x + y
unfolding bit_or shift
bit_or-shift zero x y lt = omega arith
bit_or-shift (suc n) x y lt =
    let half : shift n x * 2 / 2 ≡ shift n x = omega arith in
    let even : shift n x * 2 % 2 ≡ 0 = omega arith in
    let rest = bit_or-shift n x (y / 2) (omega arith) in rw (half, even, rest) (ground arith)

bit_or-add : (pa perm : ℕ) → pa % pgsize ≡ 0 → perm < pgsize → bit_or 12 pa perm ≡ pa + perm
unfolding shift
bit_or-add pa perm al lt =
    let e : pa ≡ shift 12 (pa / pgsize) = omega arith in
    ap (λ x. bit_or 12 x perm) e
    ∙ bit_or-shift 12 (pa / pgsize) perm (omega arith)
    ∙ ap (λ x. x + perm) (sym e)

make_pte-is_present : (pa perm : ℕ) → is_present (make_pte pa perm) ≡ true
unfolding make_pte is_present
make_pte-is_present pa perm = ground arith

make_pte-is_user :
    (pa perm : ℕ)
    → pa % pgsize ≡ 0
    → perm < pgsize
    → perm / 4 % 2 ≡ 1
    → is_user (make_pte pa perm) ≡ true
unfolding make_pte is_user
make_pte-is_user pa perm al lt u =
    let e = bit_or-add pa perm al lt in
    let bit : ((pa + perm) / 2 * 2 + 1) / 4 % 2 ≡ 1 = omega arith in rw (e, bit) refl

make_pte-pte_addr :
    (pa perm : ℕ) → pa % pgsize ≡ 0 → perm < pgsize → pte_addr (make_pte pa perm) ≡ pa
unfolding make_pte
make_pte-pte_addr pa perm al lt = let e = bit_or-add pa perm al lt in rw e (omega arith)

p2v-ok : (a : ℕ) → a < kernbase → p2v a ≡ ok (a + kernbase)
unfolding p2v
p2v-ok a lt = ground arith

-- The page `table` holds the table of the directory's entry for `va`.
abbrev pub HasTable : ℕ → ℕ → ℕ → Kmem → Type 0
HasTable pgdir va table k =
    (is_present (k.word (pgdir + 4 * pdx va)) ≡ true)
    × (pte_addr (k.word (pgdir + 4 * pdx va)) + kernbase ≡ table)
    × (table < kernbase + kernbase)
    × (table % pgsize ≡ 0)

pub walkpgdir-HasTable :
    (pgdir va table : ℕ) (alloc : Bool) (k : Kmem)
    → HasTable pgdir va table k
    → walkpgdir pgdir va alloc k ≡ ok (table + 4 * ptx va, k)
unfolding walkpgdir
walkpgdir-HasTable pgdir va table alloc k (y, e, lt, al) =
    let v = p2v-ok (pte_addr (k.word (pgdir + 4 * pdx va))) (omega arith) in
    rw (y, v) (ap (λ t. ok (t + 4 * ptx va, k)) e)

-- A word of one page is no word of another.
pub entry-other :
    (pgdir table i j : ℕ)
    → pgdir % pgsize ≡ 0
    → table % pgsize ≡ 0
    → table ≢ pgdir
    → i < 1024
    → j < 1024
    → table + 4 * j ≢ pgdir + 4 * i
entry-other pgdir table i j p t ne li lj e = omega arith

pub poke-HasTable :
    (pgdir va table v : ℕ) (k : Kmem)
    → pgdir % pgsize ≡ 0
    → table ≢ pgdir
    → HasTable pgdir va table k
    → HasTable pgdir va table (poke (table + 4 * ptx va) v k)
poke-HasTable pgdir va table v k p ne (y, e, lt, al) =
    let same =
      update_other k.word (table + 4 * ptx va) v (pgdir + 4 * pdx va)
        (entry-other pgdir table (pdx va) (ptx va) p al ne (omega arith) (omega arith)) in
    (ap is_present same ∙ y, ap (λ w. pte_addr w + kernbase) same ∙ e, lt, al)

-- uva2ka() where the entry has just been stored.
pub uva2ka-make_pte :
    (pgdir va table pa perm : ℕ) (k : Kmem)
    → HasTable pgdir va table (poke (table + 4 * ptx va) (make_pte pa perm) k)
    → pa % pgsize ≡ 0
    → pa < kernbase
    → perm < pgsize
    → perm / 4 % 2 ≡ 1
    → uva2ka pgdir va (poke (table + 4 * ptx va) (make_pte pa perm) k) ≡ ok (pa + kernbase)
unfolding uva2ka
uva2ka-make_pte pgdir va table pa perm k h al lt pl u =
    ap (λ r. r >>= found) (walkpgdir-HasTable pgdir va table false after h)
    ∙ ap at_word (update_self k.word (table + 4 * ptx va) (make_pte pa perm))
    ∙ rw
        (
          make_pte-is_present pa perm,
          make_pte-is_user pa perm al pl u,
          make_pte-pte_addr pa perm al pl,
        )
        (p2v-ok pa lt)
  where
    after : Kmem
    after = poke (table + 4 * ptx va) (make_pte pa perm) k

    at_word : ℕ → Outcome ℕ
    at_word w =
        if not (is_present w) then ok 0 else if not (is_user w) then ok 0 else p2v (pte_addr w)

    found : ℕ × Kmem → Outcome ℕ
    found r = at_word (r.1.word r.0)
