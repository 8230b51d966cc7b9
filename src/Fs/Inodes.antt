-- ===== src/Fs/Inodes.antt =====
-- The inodes in a block of the disk: what iupdate() stores is what ilock() loads.
use large_project.Prelude.{
  ℕ, ◌+◌, ◌%◌, ◌≤◌, ◌<◌, ◌≡◌, ◌≢◌, ◌∷◌, refl, sym, ap, ◌∙◌, ◌⊎◌, inl, inr, true, false, ◌==◌, arith,
  ℕ_discrete, dec_lt, subst,
}
use large_project.Prelude.Param.{uint_mod}
use large_project.Disk.{update, update_self, update_other}
use large_project.Fs.Layout.{
  Bytes, Super, Dinode, ndirect, ipb, iblock, get_short, put_short, get_word, put_word, get_dinode,
  put_dinode,
}
use large_project.Fs.State.{
  Inode, World, Run, done, panicked, waits, read_block, write_block, get_inode, put_inode,
}
use large_project.Fs.Inode.{on_disk, load, ioffset}
use large_project.Fs.Update.{iupdate, load_inode}
use large_project.Fs.Words.{put_words-byte, get_word-bytes, get_short-bytes, get_word-put_words}

-- The fields before `addrs`.
head : Bytes → ℕ → ℕ → ℕ → ℕ → ℕ → ℕ → Bytes
head d o a b c e s =
    put_word (put_short (put_short (put_short (put_short d o a) (o + 2) b) (o + 4) c) (o + 6) e)
      (o + 8) s

module _ (d : Bytes) (o a b c e s : ℕ) where
  head-kind : a < 65536 → get_short (head d o a b c e s) o ≡ a
  unfolding head put_word put_short get_short
  head-kind lt = ground arith

  head-major : b < 65536 → get_short (head d o a b c e s) (o + 2) ≡ b
  unfolding head put_word put_short get_short
  head-major lt = ground arith

  head-minor : c < 65536 → get_short (head d o a b c e s) (o + 4) ≡ c
  unfolding head put_word put_short get_short
  head-minor lt = ground arith

  head-nlink : e < 65536 → get_short (head d o a b c e s) (o + 6) ≡ e
  unfolding head put_word put_short get_short
  head-nlink lt = ground arith

  head-size : s < uint_mod → get_word (head d o a b c e s) (o + 8) ≡ s
  unfolding head put_word put_short get_word
  head-size lt = ground arith

  head-byte : (p : ℕ) → p < o ⊎ o + 12 ≤ p → head d o a b c e s p ≡ d p
  unfolding head put_word put_short
  head-byte p h = ground arith

-- The fields fit into a `short` and a `uint`.
abbrev pub Fits : Dinode → Type 0
Fits i =
    (i.kind < 65536)
    × (i.major < 65536)
    × (i.minor < 65536)
    × (i.nlink < 65536)
    × (i.size < uint_mod)
    × ((j : ℕ) → j < ndirect + 1 → i.addrs j < uint_mod)

-- The fields of two inodes are the same.
abbrev pub Same : Dinode → Dinode → Type 0
Same i k =
    (i.kind ≡ k.kind)
    × (i.major ≡ k.major)
    × (i.minor ≡ k.minor)
    × (i.nlink ≡ k.nlink)
    × (i.size ≡ k.size)
    × ((j : ℕ) → j < ndirect + 1 → i.addrs j ≡ k.addrs j)

get_dinode-put_dinode :
    (d : Bytes) (o : ℕ) (i : Dinode) → Fits i → Same (get_dinode (put_dinode d o i) o) i
unfolding get_dinode put_dinode head
get_dinode-put_dinode d o i (fk, fma, fmi, fn, fs, fa) = (
  short o (omega arith) ∙ head-kind d o i.kind i.major i.minor i.nlink i.size fk,
  short (o + 2) (omega arith) ∙ head-major d o i.kind i.major i.minor i.nlink i.size fma,
  short (o + 4) (omega arith) ∙ head-minor d o i.kind i.major i.minor i.nlink i.size fmi,
  short (o + 6) (omega arith) ∙ head-nlink d o i.kind i.major i.minor i.nlink i.size fn,
  get_word-bytes (put_dinode d o i) first (o + 8) (λ p l h. below p (omega arith))
      ∙ head-size d o i.kind i.major i.minor i.nlink i.size fs,
  λ j l. get_word-put_words first (o + 12) i.addrs (ndirect + 1) j l fa,
)
  where
    first : Bytes
    first = head d o i.kind i.major i.minor i.nlink i.size

    below : (p : ℕ) → p < o + 12 → put_dinode d o i p ≡ first p
    below p l = put_words-byte first (o + 12) i.addrs (ndirect + 1) p (inl l)

    short : (q : ℕ) → q + 2 ≤ o + 12 → get_short (put_dinode d o i) q ≡ get_short first q
    short q l = get_short-bytes (put_dinode d o i) first q (λ p g h. below p (omega arith))

put_dinode-byte :
    (d : Bytes) (o : ℕ) (i : Dinode) (p : ℕ) → p < o ⊎ o + 64 ≤ p → put_dinode d o i p ≡ d p
unfolding put_dinode head
put_dinode-byte d o i p h =
    put_words-byte (head d o i.kind i.major i.minor i.nlink i.size) (o + 12) i.addrs (ndirect + 1) p
      (grind arith)
    ∙ head-byte d o i.kind i.major i.minor i.nlink i.size p (grind arith)

module _ (sb : Super) where
  -- Entry `next` holds the inode `i`.
  abbrev pub Loads : Dinode → ℕ → Run (Unit {0}) → Type 0
  Loads i next (done u w) = ((w.icache next).valid ≡ true) × Same (on_disk (w.icache next)) i
  Loads i next (panicked s) = ⊥
  Loads i next (waits j w) = ⊥

  abbrev pub stored : World → ℕ → World
  stored w ip = record w {
    blocks = update w.blocks (iblock (w.icache ip).inum sb) (
        put_dinode (w.blocks (iblock (w.icache ip).inum sb)) (ioffset (w.icache ip).inum)
          (on_disk (w.icache ip)));
    logged = iblock (w.icache ip).inum sb ∷ w.logged;
  }

  stored-byte :
      (w : World) (ip n j : ℕ)
      → n ≢ (w.icache ip).inum
      → j < 64
      → (stored w ip).blocks (iblock n sb) (ioffset n + j) ≡ w.blocks (iblock n sb) (ioffset n + j)
  stored-byte w ip n j ne lt = elim (ℕ_discrete (iblock m sb) (iblock n sb)) [
    | yes e ↦
        ap (λ (b : Bytes). b (ioffset n + j))
          (ap (stored w ip).blocks (sym e) ∙ update_self w.blocks (iblock m sb) new)
        ∙ put_dinode-byte old (ioffset m) (on_disk (w.icache ip)) (ioffset n + j)
            (elim (dec_lt (n % ipb) (m % ipb)) [
              | yes l ↦ inl (omega arith)
              | no g ↦ inr (omega arith)
            ])
        ∙ ap (λ b. w.blocks b (ioffset n + j)) e
    | no ne ↦
        ap (λ (b : Bytes). b (ioffset n + j))
          (update_other w.blocks (iblock m sb) new (iblock n sb) ne)
  ]
    where
      m : ℕ
      m = (w.icache ip).inum

      old : Bytes
      old = w.blocks (iblock m sb)

      new : Bytes
      new = put_dinode old (ioffset m) (on_disk (w.icache ip))

  load_inode-Loads :
      (w : World) (next : ℕ) (d : Bytes) (i : Dinode)
      → w.blocks (iblock (w.icache next).inum sb) ≡ d
      → Same (get_dinode d (ioffset (w.icache next).inum)) i
      → (w.icache next).valid ≡ false
      → i.kind ≢ 0
      → Loads i next (load_inode sb next w)
  unfolding load_inode get_inode read_block put_inode get_dinode
  load_inode-Loads w next d i block same invalid typed =
      let kind : (get_short d (ioffset (w.icache next).inum) == 0) ≡ false =
        let k = same.0 in ground arith in
      rw (invalid, block, kind)
        (subst (λ (x : Inode). (x.valid ≡ true) × Same (on_disk x) i)
          (sym (
            update_self w.icache next
              (load (w.icache next) (get_dinode d (ioffset (w.icache next).inum)))))
          (refl, same))

  -- What iupdate() has done to the inodes on the disk and in the table.
  abbrev pub Updates : World → ℕ → ℕ → Run (Unit {0}) → Type 0
  Updates w ip next (done u w') =
      Loads (on_disk (w.icache ip)) next (load_inode sb next w')
      × ((n j : ℕ)
          → n ≢ (w.icache ip).inum
          → j < 64
          → w'.blocks (iblock n sb) (ioffset n + j) ≡ w.blocks (iblock n sb) (ioffset n + j))
      × (w'.icache ≡ w.icache)
  Updates w ip next (panicked s) = ⊥
  Updates w ip next (waits j w') = ⊥

  -- iupdate() of an inode that is not free and whose fields fit into those on the disk returns; then
  -- ilock() of any entry for that inode that is not valid loads the same fields, and the 64 bytes of
  -- every other inode are as they were.
  pub iupdate-load :
      (w : World) (ip next : ℕ)
      → Fits (on_disk (w.icache ip))
      → (w.icache next).inum ≡ (w.icache ip).inum
      → (w.icache next).valid ≡ false
      → (w.icache ip).kind ≢ 0
      → Updates w ip next (iupdate sb ip w)
  unfolding iupdate get_inode read_block write_block
  iupdate-load w ip next fits same invalid typed = (
    load_inode-Loads (stored w ip) next new (on_disk (w.icache ip))
        (ap (λ m. (stored w ip).blocks (iblock m sb)) same
          ∙ update_self w.blocks (iblock (w.icache ip).inum sb) new)
        (subst (λ m. Same (get_dinode new (ioffset m)) (on_disk (w.icache ip))) (sym same)
          (get_dinode-put_dinode old (ioffset (w.icache ip).inum) (on_disk (w.icache ip)) fits))
        invalid typed,
    (λ n j ne lt. stored-byte w ip n j ne lt),
    refl,
  )
    where
      old : Bytes
      old = w.blocks (iblock (w.icache ip).inum sb)

      new : Bytes
      new = put_dinode old (ioffset (w.icache ip).inum) (on_disk (w.icache ip))
