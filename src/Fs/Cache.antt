-- ===== src/Fs/Cache.antt =====
-- iget() and the table of inodes: an inode of the disk has one entry at most.
use large_project.Prelude.{
  ℕ, zero, suc, ◌+◌, ◌<◌, ◌≡◌, ◌≢◌, refl, sym, ap, ◌∙◌, subst, ◌⊎◌, inl, inr, true, false, Option,
  none, some, ◌==◌, arith, Bool-cases, ℕ_discrete,
}
use large_project.Disk.{update, update_self, update_other}
use large_project.Fs.State.{Inode, World, Run, done, panicked, waits, get_inode, put_inode}
use large_project.Fs.Inode.{
  ninode, Slot, cached, missing, remember, is_inode, find_slot, recycled, take_entry, iget,
}

-- Two entries that are in use and hold the same inode have the same index.
abbrev Apart : ℕ → ℕ → Inode → Inode → Type 0
Apart i j a b = 0 < a.ref → 0 < b.ref → a.dev ≡ b.dev → a.inum ≡ b.inum → i ≡ j

abbrev pub Unique : (ℕ → Inode) → Type 0
Unique c = (i j : ℕ) → i < ninode → j < ninode → Apart i j (c i) (c j)

-- No entry but `ip` holds the inode of `e`.
abbrev Alone : (ℕ → Inode) → ℕ → Inode → Type 0
Alone c ip e =
    (j : ℕ) → j < ninode → j ≢ ip → 0 < (c j).ref → e.dev ≡ (c j).dev → e.inum ≡ (c j).inum → ⊥

update-Unique :
    (c : ℕ → Inode) (ip : ℕ) (e : Inode) → Unique c → Alone c ip e → Unique (update c ip e)
update-Unique c ip e u alone i j li lj = elim (ℕ_discrete ip i) [
  | yes p ↦ elim (ℕ_discrete ip j) [
    | yes q ↦ λ ri rj d n. sym p ∙ q
    | no q ↦
        subst (λ x. Apart i j x (update c ip e j))
          (sym (ap (update c ip e) (sym p) ∙ update_self c ip e))
          (subst (Apart i j e) (sym (update_other c ip e j q))
            (λ ri rj d n. absurd (alone j lj (λ x. q (sym x)) rj d n)))
  ]
  | no p ↦ elim (ℕ_discrete ip j) [
    | yes q ↦
        subst (λ x. Apart i j x (update c ip e j)) (sym (update_other c ip e i p))
          (subst (Apart i j (c i)) (sym (ap (update c ip e) (sym q) ∙ update_self c ip e))
            (λ ri rj d n. absurd (alone i li (λ x. p (sym x)) ri (sym d) (sym n))))
    | no q ↦
        subst (λ x. Apart i j x (update c ip e j)) (sym (update_other c ip e i p))
          (subst (Apart i j (c i)) (sym (update_other c ip e j q)) (u i j li lj))
  ]
]

-- What the loop has of free entries, having passed the entries below `i`.
abbrev Spare : (ℕ → Inode) → ℕ → Option ℕ → Type 0
Spare c i none = (j : ℕ) → j < i → 0 < (c j).ref
Spare c i (some k) = (k < ninode) × ((c k).ref ≡ 0)

abbrev Absent : (ℕ → Inode) → ℕ → ℕ → ℕ → Type 0
Absent c dev inum i = (j : ℕ) → j < i → is_inode dev inum (c j) ≡ false

-- What the loop finds.
abbrev Finds : (ℕ → Inode) → ℕ → ℕ → Slot → Type 0
Finds c dev inum (cached k) = (k < ninode) × (is_inode dev inum (c k) ≡ true)
Finds c dev inum (missing o) = Absent c dev inum ninode × Spare c ninode o

remember-Spare :
    (c : ℕ → Inode) (i : ℕ) (o : Option ℕ)
    → i < ninode
    → Spare c i o
    → Spare c (i + 1) (remember o i (c i))
remember-Spare c i (some k) lt s = s
remember-Spare c i none lt s = elim (Bool-cases ((c i).ref == 0)) [
  | inl y ↦ rw y (lt, ground (arith, y))
  | inr n ↦ rw n (λ j l. elim (ℕ_discrete i j) [
    | yes e ↦ subst (λ k. 0 < (c k).ref) e (ground (arith, n))
    | no ne ↦ s j (omega arith)
  ])
]

find_slot-Finds :
    (c : ℕ → Inode) (dev inum i n : ℕ) (o : Option ℕ)
    → i + n ≡ ninode
    → Absent c dev inum i
    → Spare c i o
    → Finds c dev inum (find_slot c dev inum i n o)
unfolding find_slot
find_slot-Finds c dev inum i zero o e ab s =
    subst (λ k. Absent c dev inum k × Spare c k o) (omega arith) (ab, s)
find_slot-Finds c dev inum i (suc n) o e ab s = elim (Bool-cases (is_inode dev inum (c i))) [
  | inl y ↦ rw y (omega arith, y)
  | inr ne ↦ rw ne (
      find_slot-Finds c dev inum (i + 1) n (remember o i (c i)) (omega arith)
        (λ j l. elim (ℕ_discrete i j) [
          | yes p ↦ subst (λ k. is_inode dev inum (c k) ≡ false) p ne
          | no np ↦ ab j (omega arith)
        ])
        (remember-Spare c i o (omega arith) s))
]

-- The entry `a` becomes `b`: it held the inode and has a reference more; or it was free, no entry held
-- the inode, and `b` holds it, with one reference and nothing loaded.
abbrev pub Held : ℕ → ℕ → Inode → Inode → Type 0
Held dev inum a b =
    (0 < a.ref) × (a.dev ≡ dev) × (a.inum ≡ inum) × (b ≡ record a { ref = a.ref + 1 })

abbrev pub Fresh : (ℕ → Inode) → ℕ → ℕ → Inode → Inode → Type 0
Fresh c dev inum a b =
    (a.ref ≡ 0)
    × ((j : ℕ) → j < ninode → 0 < (c j).ref → (c j).dev ≡ dev → (c j).inum ≡ inum → ⊥)
    × (b.dev ≡ dev)
    × (b.inum ≡ inum)
    × (b.ref ≡ 1)
    × (b.valid ≡ false)

-- What iget() has done: the entry `ip` holds the inode, as above; no other entry has changed, and
-- neither have the blocks; or no entry was free and none held the inode.
abbrev pub Gets : ℕ → ℕ → World → Run ℕ → Type 0
Gets dev inum w (done ip w') =
    (ip < ninode)
    × (Held dev inum (w.icache ip) (w'.icache ip)
        ⊎ Fresh w.icache dev inum (w.icache ip) (w'.icache ip))
    × ((j : ℕ) → j ≢ ip → w'.icache j ≡ w.icache j)
    × (w'.blocks ≡ w.blocks)
    × Unique w'.icache
Gets dev inum w (panicked s) =
    (j : ℕ)
    → j < ninode
    → (0 < (w.icache j).ref) × ((w.icache j).dev ≡ dev → (w.icache j).inum ≡ inum → ⊥)
Gets dev inum w (waits ip w') = ⊥

update-Gets :
    (dev inum : ℕ) (w : World) (ip : ℕ) (e : Inode)
    → Unique w.icache
    → ip < ninode
    → Held dev inum (w.icache ip) e ⊎ Fresh w.icache dev inum (w.icache ip) e
    → Alone w.icache ip e
    → Gets dev inum w (done ip (record w { icache = update w.icache ip e }))
update-Gets dev inum w ip e u lt new alone = (
  lt,
  subst (λ x. Held dev inum (w.icache ip) x ⊎ Fresh w.icache dev inum (w.icache ip) x) (sym self)
      new,
  (λ j ne. update_other w.icache ip e j (λ q. ne (sym q))),
  refl,
  update-Unique w.icache ip e u alone,
)
  where
    self : update w.icache ip e ip ≡ e
    self = update_self w.icache ip e

is_inode-fields :
    (dev inum : ℕ) (e : Inode)
    → is_inode dev inum e ≡ true
    → (0 < e.ref) × (e.dev ≡ dev) × (e.inum ≡ inum)
is_inode-fields dev inum e h = ground (arith, h)

absent :
    (dev inum : ℕ) (e : Inode)
    → is_inode dev inum e ≡ false
    → 0 < e.ref
    → dev ≡ e.dev
    → inum ≡ e.inum
    → ⊥
absent dev inum e h r d n = ground (arith, h)

take_entry-Gets :
    (dev inum : ℕ) (w : World) (r : Slot)
    → Unique w.icache
    → Finds w.icache dev inum r
    → Gets dev inum w (take_entry dev inum r w)
unfolding take_entry get_inode put_inode
take_entry-Gets dev inum w (cached k) u (lt, h) =
    let (r, d, n) = is_inode-fields dev inum (w.icache k) h in
    update-Gets dev inum w k (record (w.icache k) { ref = (w.icache k).ref + 1 }) u lt
      (inl (r, d, n, refl)) (λ j lj ne rj dj nj. ne (u j k lj lt rj r (sym dj) (sym nj)))
take_entry-Gets dev inum w (missing none) u (ab, s) =
    λ j lj. (s j lj, λ d n. absent dev inum (w.icache j) (ab j lj) (s j lj) (sym d) (sym n))
take_entry-Gets dev inum w (missing (some k)) u (ab, (lt, z)) =
    update-Gets dev inum w k (recycled (w.icache k) dev inum) u lt
      (inr (
        z,
        (λ j lj r d n. absent dev inum (w.icache j) (ab j lj) r (sym d) (sym n)),
        refl,
        refl,
        refl,
        refl,
      ))
      (λ j lj ne rj dj nj. absent dev inum (w.icache j) (ab j lj) rj dj nj)

-- Where no inode of the disk has two entries in use, iget() gives the entry that holds its inode a
-- reference more and changes nothing else of it; or, where no entry holds the inode, it takes an entry
-- that was free for it, with one reference and marked as not loaded. Still no inode has two entries,
-- and no other entry and no block changes. It panics only where all NINODE entries are in use and none
-- holds the inode.
pub iget-Gets : (dev inum : ℕ) (w : World) → Unique w.icache → Gets dev inum w (iget dev inum w)
unfolding iget
iget-Gets dev inum w u = take_entry-Gets dev inum w (find_slot w.icache dev inum 0 ninode none) u (
    find_slot-Finds w.icache dev inum 0 ninode none refl (λ j l. absurd (omega arith))
      (λ j l. absurd (omega arith)))
