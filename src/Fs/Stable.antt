-- ===== src/Fs/Stable.antt =====
-- bmap() and the entries that it reads and fills.
use large_project.Prelude.{
  ℕ, ◌-◌, ◌*◌, ◌≤◌, ◌<◌, ◌≡◌, ◌≢◌, refl, sym, ap, ◌∙◌, inl, inr, true, false, ltb, ◌==◌, arith,
  Bool-cases, ℕ_discrete,
}
use large_project.Prelude.Param.{uint_mod}
use large_project.Disk.{update_self}
use large_project.Fs.Layout.{Bytes, Super, bblock, ndirect, nindirect, maxfile, get_word, put_word}
use large_project.Fs.State.{
  Inode, World, Run, done, panicked, waits, then_run, ◌>>=◌, ◌>>◌, pure, read_block, write_block,
  get_inode,
}
use large_project.Fs.Blocks.{balloc}
use large_project.Fs.Bitmap.{in_map, MapInUse, Allocates, balloc-Allocates}
use large_project.Fs.Update.{set_addr, addr_entry, indirect_entry, bmap}
use large_project.Fs.Words.{get_word-put_word}

module _ (sb : Super) where
  -- The free map has its own blocks and block 0 in use, and the disk has fewer than 2^32 blocks.
  abbrev pub Usable : World → Type 0
  Usable w = MapInUse sb w × (in_map sb w 0 ≡ true) × (sb.size ≤ uint_mod)

  abbrev Full : World → Type 0
  Full w = (c : ℕ) → c < sb.size → in_map sb w c ≡ true

  -- No block but `n`, if any, has become used or free.
  abbrev Keeps : ℕ → World → World → Type 0
  Keeps n w w' = (c : ℕ) → c < sb.size → n ≢ c → in_map sb w' c ≡ in_map sb w c

  -- What an allocation has done to the map.
  abbrev Grows : World → Run ℕ → Type 0
  Grows w (done n w') = (n ≢ 0) × (n < sb.size) × Usable w' × Keeps n w w' × (w'.icache ≡ w.icache)
  Grows w (panicked s) = Full w
  Grows w (waits i w') = ⊥

  Allocates-Grows : (w : World) (r : Run ℕ) → Usable w → Allocates sb w r → Grows w r
  Allocates-Grows w (panicked s) u a = a
  Allocates-Grows w (waits i w') u a = a
  Allocates-Grows w (done n w') (v, z, le) (lt, free, before, bits, zeros, others, log, same) = (
    nonzero,
    lt,
    (map_used, used 0 (omega arith) z, le),
    (λ c l ne. let b = bits c l in ground arith),
    same,
  )
    where
      nonzero : n ≢ 0
      nonzero e = cc (free, z, ap (in_map sb w) e)

      used : (c : ℕ) → c < sb.size → in_map sb w c ≡ true → in_map sb w' c ≡ true
      used c l y = let b = bits c l in ground arith

      map_used : MapInUse sb w'
      map_used c l = let (m, y) = v c l in (m, used (bblock c sb) m y)

  balloc-Grows : (w : World) → Usable w → Grows w (balloc sb w)
  balloc-Grows w u = Allocates-Grows w (balloc sb w) u (balloc-Allocates sb w u.0)

  -- What an access to an entry has done, where `read` is the entry.
  abbrev Settled : (World → ℕ) → World → Run ℕ → Type 0
  Settled read w (done a w') = (a ≢ 0) × (read w' ≡ a) × Usable w' × ((n : ℕ) × Keeps n w w')
  Settled read w (panicked s) = Full w
  Settled read w (waits i w') = ⊥

  abbrev entry : ℕ → ℕ → World → ℕ
  entry ip i w = (w.icache ip).addrs i

  addr_entry-Settled :
      (ip i : ℕ) (w : World) → Usable w → Settled (entry ip i) w (addr_entry sb ip i w)
  unfolding addr_entry get_inode
  addr_entry-Settled ip i w u = elim (Bool-cases ((w.icache ip).addrs i == 0)) [
    | inl y ↦ rw y (stored (balloc sb w) (balloc-Grows w u))
    | inr n ↦ rw n (ground (arith, n), refl, u, (0, λ c l ne. refl))
  ]
    where
      stored :
          (r : Run ℕ)
          → Grows w r
          → Settled (entry ip i) w (then_run r (λ addr. set_addr sb ip i addr >> pure addr))
      stored (panicked s) g = g
      stored (waits j w') g = g
      stored (done n w') (nz, lt, v, k, same) = (nz, ground arith, v, (n, k))

  abbrev ind_word : ℕ → ℕ → World → ℕ
  ind_word b i w = get_word (w.blocks b) (4 * i)

  abbrev Fixed : ℕ → ℕ → World → Run ℕ → Type 0
  Fixed b i w (done a w') = (a ≢ 0) × (ind_word b i w' ≡ a) × (w'.icache ≡ w.icache)
  Fixed b i w (panicked s) = Full w
  Fixed b i w (waits j w') = ⊥

  indirect_entry-Fixed : (b i : ℕ) (w : World) → Usable w → Fixed b i w (indirect_entry sb b i w)
  unfolding indirect_entry read_block write_block
  indirect_entry-Fixed b i w u = elim (Bool-cases (ind_word b i w == 0)) [
    | inl y ↦ rw y (stored (balloc sb w) (balloc-Grows w u))
    | inr n ↦ rw n (ground (arith, n), refl, refl)
  ]
    where
      stored :
          (r : Run ℕ)
          → Grows w r
          → Fixed b i w (
              then_run r (λ addr.
                read_block b >>= λ now. write_block b (put_word now (4 * i) addr) >> pure addr))
      stored (panicked s) g = g
      stored (waits j w') g = g
      stored (done n w') (nz, lt, v, k, same) = (
        nz,
        ap (λ (d : Bytes). get_word d (4 * i))
              (update_self w'.blocks b (put_word (w'.blocks b) (4 * i) n))
            ∙ get_word-put_word (w'.blocks b) (4 * i) n (omega arith),
        same,
      )

  -- An entry that is there is only read.
  addr_entry-done :
      (ip i a : ℕ) (w : World) → entry ip i w ≡ a → a ≢ 0 → addr_entry sb ip i w ≡ done a w
  unfolding addr_entry get_inode
  addr_entry-done ip i a w e nz =
      let there : (entry ip i w == 0) ≡ false = ground arith in rw there (ap (λ x. done x w) e)

  indirect_entry-done :
      (b i a : ℕ) (w : World) → ind_word b i w ≡ a → a ≢ 0 → indirect_entry sb b i w ≡ done a w
  unfolding indirect_entry read_block
  indirect_entry-done b i a w e nz =
      let there : (ind_word b i w == 0) ≡ false = ground arith in rw there (ap (λ x. done x w) e)

  -- What bmap() has done: the block is not 0, and the next call gives it again and changes nothing.
  -- It panics only where fewer than two blocks are free.
  abbrev pub Maps : ℕ → ℕ → World → Run ℕ → Type 0
  Maps ip bn w (done a w') = (a ≢ 0) × (bmap sb ip bn w' ≡ done a w')
  Maps ip bn w (panicked s) =
      (c d : ℕ) → c < sb.size → d < sb.size → in_map sb w c ≡ false → in_map sb w d ≡ false → c ≡ d
  Maps ip bn w (waits j w') = ⊥

  direct-Maps :
      (ip bn : ℕ) (w : World) (r : Run ℕ)
      → bn < ndirect
      → Settled (entry ip bn) w r
      → Maps ip bn w r
  unfolding bmap
  direct-Maps ip bn w (done a w') lt (nz, e, u, k) =
      let first : ltb bn ndirect ≡ true = ground arith in
      (nz, rw first (addr_entry-done ip bn a w' e nz))
  direct-Maps ip bn w (panicked s) lt full = λ c d lc ld fc fd. cc (fc, full c lc)
  direct-Maps ip bn w (waits j w') lt never = elim never [ ]

  indirect-Maps :
      (ip bn b : ℕ) (w w1 : World) (r : Run ℕ)
      → ndirect ≤ bn
      → bn < maxfile
      → Settled (entry ip ndirect) w (done b w1)
      → Fixed b (bn - ndirect) w1 r
      → Maps ip bn w r
  unfolding bmap
  indirect-Maps ip bn b w w1 (done a w') ge lt (nb, eb, u, k) (na, ea, same) =
      let second : ltb bn ndirect ≡ false = ground arith in
      let inside : ltb (bn - ndirect) nindirect ≡ true = ground arith in
      (
        na,
        rw (second, inside)
            (ap (λ r. then_run r (λ addr. indirect_entry sb addr (bn - ndirect)))
                (addr_entry-done ip ndirect b w'
                  (ap (λ (c : ℕ → Inode). (c ip).addrs ndirect) same ∙ eb) nb)
              ∙ indirect_entry-done b (bn - ndirect) a w' ea na),
      )
  indirect-Maps ip bn b w w1 (waits j w') ge lt s never = elim never [ ]
  indirect-Maps ip bn b w w1 (panicked s) ge lt (nb, eb, u, (n, k)) full =
      λ c d lc ld fc fd. only c lc fc ∙ sym (only d ld fd)
    where
      only : (c : ℕ) → c < sb.size → in_map sb w c ≡ false → c ≡ n
      only c lc fc = elim (ℕ_discrete n c) [ yes e ↦ sym e | no ne ↦ cc (fc, k c lc ne, full c lc) ]

  -- On a disk whose free map has its own blocks and block 0 in use, bmap() of a block number within a
  -- file returns a block that is not 0, and calling it again in the state it leaves returns the same
  -- block and changes nothing, be the entry direct or indirect, there before or allocated. It panics
  -- only where fewer than two blocks are free.
  pub bmap-Maps : (ip bn : ℕ) (w : World) → Usable w → bn < maxfile → Maps ip bn w (bmap sb ip bn w)
  unfolding bmap
  bmap-Maps ip bn w u lt = elim (Bool-cases (ltb bn ndirect)) [
    | inl y ↦ rw y (
        direct-Maps ip bn w (addr_entry sb ip bn w) (ground (arith, y))
          (addr_entry-Settled ip bn w u))
    | inr n ↦
        let inside : ltb (bn - ndirect) nindirect ≡ true = ground arith in
        rw (n, inside)
          (through (addr_entry sb ip ndirect w) (ground (arith, n))
            (addr_entry-Settled ip ndirect w u))
  ]
    where
      through :
          (r : Run ℕ)
          → ndirect ≤ bn
          → Settled (entry ip ndirect) w r
          → Maps ip bn w (then_run r (λ addr. indirect_entry sb addr (bn - ndirect)))
      through (done b w1) ge (nb, eb, v, k) =
          indirect-Maps ip bn b w w1 (indirect_entry sb b (bn - ndirect) w1) ge lt (nb, eb, v, k)
            (indirect_entry-Fixed b (bn - ndirect) w1 v)
      through (panicked s) ge full = λ c d lc ld fc fd. cc (fc, full c lc)
      through (waits j w') ge never = elim never [ ]
