-- ===== src/Fs/Bitmap.antt =====
-- balloc() and bfree() against the free map: which block they take, and what they leave alone.
use large_project.Prelude.{
  ℕ, zero, suc, ◌+◌, ◌-◌, ◌*◌, ◌/◌, ◌%◌, ◌≤◌, ◌<◌, ◌≡◌, ◌≢◌, refl, sym, ap, ◌∙◌, subst, ◌⊎◌, inl,
  inr, Bool, true, false, Option, none, some, ◌∷◌, ltb, ◌==◌, if◌then◌else◌, arith, Bool-cases,
  ℕ_discrete, dec_lt,
}
use large_project.Disk.{update, update_self, update_other}
use large_project.Fs.Bits.{test_bit-set_bit, test_bit-clear_bit}
use large_project.Fs.Layout.{Bytes, Super, bpb, bblock}
use large_project.Fs.State.{World, Run, done, panicked, waits, M, read_block, write_block}
use large_project.Fs.Blocks.{
  in_use, mark, unmark, bzero, find_clear, take_block, found_in, balloc_from, balloc, bfree,
}

in_use-mark : (d : Bytes) (i j : ℕ) → in_use (mark d i) j ≡ (if i == j then true else in_use d j)
unfolding in_use mark
in_use-mark d i j = ground (arith, test_bit-set_bit (d (i / 8)) (i % 8) (j % 8))

in_use-unmark :
    (d : Bytes) (i j : ℕ) → in_use (unmark d i) j ≡ (if i == j then false else in_use d j)
unfolding in_use unmark
in_use-unmark d i j = ground (arith, test_bit-clear_bit (d (i / 8)) (i % 8) (j % 8))

-- What the inner loop finds: the first clear bit, or that there is none.
abbrev Clear : Bytes → ℕ → ℕ → ℕ → ℕ → Option ℕ → Type 0
Clear d size b bi n none = (j : ℕ) → bi ≤ j → j < bi + n → b + j < size → in_use d j ≡ true
Clear d size b bi n (some r) =
    (bi ≤ r)
    × (r < bi + n)
    × (b + r < size)
    × (in_use d r ≡ false)
    × ((j : ℕ) → bi ≤ j → j < r → in_use d j ≡ true)

-- A bit in use in front of those that were searched.
extend :
    (d : Bytes) (size b bi n : ℕ) (r : Option ℕ)
    → in_use d bi ≡ true
    → Clear d size b (bi + 1) n r
    → Clear d size b bi (suc n) r
extend d size b bi n none u c = λ j l h k. elim (ℕ_discrete bi j) [
  | yes e ↦ subst (λ i. in_use d i ≡ true) e u
  | no ne ↦ c j (omega arith) (omega arith) k
]
extend d size b bi n (some r) u (lo, hi, lt, clear, before) = (
  omega arith,
  omega arith,
  lt,
  clear,
  λ j l h. elim (ℕ_discrete bi j) [
    | yes e ↦ subst (λ i. in_use d i ≡ true) e u
    | no ne ↦ before j (omega arith) h
  ],
)

find_clear-Clear : (d : Bytes) (size b bi n : ℕ) → Clear d size b bi n (find_clear d size b bi n)
unfolding find_clear
find_clear-Clear d size b bi zero = λ j l h k. absurd (omega arith)
find_clear-Clear d size b bi (suc n) = elim (Bool-cases (ltb (b + bi) size)) [
  | inl y ↦ elim (Bool-cases (in_use d bi)) [
    | inl u ↦
        rw (y, u)
          (extend d size b bi n (find_clear d size b (bi + 1) n) u
            (find_clear-Clear d size b (bi + 1) n))
    | inr u ↦
        rw (y, u) (omega arith, omega arith, ground (arith, y), u, λ j l h. absurd (omega arith))
  ]
  | inr y ↦ rw y (λ j l h k. absurd (ground (arith, y)))
]

module _ (sb : Super) where
  -- The bit of block `c` in the free map.
  abbrev pub in_map : World → ℕ → Bool
  in_map w c = in_use (w.blocks (bblock c sb)) (c % bpb)

  -- The blocks of the map are themselves in use.
  abbrev pub MapInUse : World → Type 0
  MapInUse w = (c : ℕ) → c < sb.size → (bblock c sb < sb.size) × (in_map w (bblock c sb) ≡ true)

  -- What balloc() has done: `n` is the first block that was free, its bit alone has changed, it holds
  -- zeros, and every other block outside the map is as it was; or no block is free.
  abbrev pub Allocates : World → Run ℕ → Type 0
  Allocates w (done n w') =
      (n < sb.size)
      × (in_map w n ≡ false)
      × ((c : ℕ) → c < n → in_map w c ≡ true)
      × ((c : ℕ) → c < sb.size → in_map w' c ≡ (if n == c then true else in_map w c))
      × ((o : ℕ) → w'.blocks n o ≡ 0)
      × ((b : ℕ) → b ≢ n → b ≢ bblock n sb → w'.blocks b ≡ w.blocks b)
      × (w'.logged ≡ n ∷ bblock n sb ∷ w.logged)
      × (w'.icache ≡ w.icache)
  Allocates w (panicked s) = (c : ℕ) → c < sb.size → in_map w c ≡ true
  Allocates w (waits i w') = ⊥

  -- A change of the bit of block `n` in its block of the map.
  in_map-update :
      (blocks : ℕ → Bytes) (n c : ℕ) (d : Bytes) (t : Bool)
      → in_use d (c % bpb)
        ≡ (if n % bpb == c % bpb then t else in_use (blocks (bblock n sb)) (c % bpb))
      → in_use (update blocks (bblock n sb) d (bblock c sb)) (c % bpb)
        ≡ (if n == c then t else in_use (blocks (bblock c sb)) (c % bpb))
  in_map-update blocks n c d t h = elim (ℕ_discrete (bblock n sb) (bblock c sb)) [
    | yes e ↦
        ap (λ f. in_use f (c % bpb))
          (ap (update blocks (bblock n sb) d) (sym e) ∙ update_self blocks (bblock n sb) d)
        ∙ h
        ∙ (let same = ap (λ k. in_use (blocks k) (c % bpb)) e in ground arith)
    | no ne ↦
        ap (λ f. in_use f (c % bpb)) (update_other blocks (bblock n sb) d (bblock c sb) ne)
        ∙ ground arith
  ]

  -- The bit `bi` of the block of the map that begins with `b`.
  in_block :
      (w : World) (b bi c : ℕ) {t : Bool}
      → b % bpb ≡ 0
      → bi < bpb
      → c ≡ b + bi
      → in_use (w.blocks (bblock b sb)) bi ≡ t
      → in_map w c ≡ t
  in_block w b bi c al lt e u =
      let at : c / bpb ≡ b / bpb = omega arith in
      let bit : c % bpb ≡ bi = omega arith in rw (at, bit) u

  -- The state after `n` is taken.
  abbrev taken : World → ℕ → World
  taken w n = record w {
    blocks =
        update (update w.blocks (bblock n sb) (mark (w.blocks (bblock n sb)) (n % bpb))) n (λ o. 0);
    logged = n ∷ bblock n sb ∷ w.logged;
  }

  taken-Allocates :
      (w : World) (n : ℕ)
      → MapInUse w
      → n < sb.size
      → in_map w n ≡ false
      → ((c : ℕ) → c < n → in_map w c ≡ true)
      → Allocates w (done n (taken w n))
  taken-Allocates w n v lt free before = (lt, free, before, bits, zeros, others, refl, refl)
    where
      marked : ℕ → Bytes
      marked = update w.blocks (bblock n sb) (mark (w.blocks (bblock n sb)) (n % bpb))

      apart : (c : ℕ) → c < sb.size → n ≢ bblock c sb
      apart c k e = cc (free, (v c k).1, ap (in_map w) e)

      zeros : (o : ℕ) → (taken w n).blocks n o ≡ 0
      zeros o = ap (λ (d : Bytes). d o) (update_self marked n (λ o. 0))

      others : (b : ℕ) → b ≢ n → b ≢ bblock n sb → (taken w n).blocks b ≡ w.blocks b
      others b ne nm =
          update_other marked n (λ o. 0) b (λ e. ne (sym e))
          ∙ update_other w.blocks (bblock n sb) (mark (w.blocks (bblock n sb)) (n % bpb)) b
              (λ e. nm (sym e))

      bits : (c : ℕ) → c < sb.size → in_map (taken w n) c ≡ (if n == c then true else in_map w c)
      bits c k =
          ap (λ d. in_use d (c % bpb)) (update_other marked n (λ o. 0) (bblock c sb) (apart c k))
          ∙ in_map-update w.blocks n c (mark (w.blocks (bblock n sb)) (n % bpb)) true
              (in_use-mark (w.blocks (bblock n sb)) (n % bpb) (c % bpb))

  taken-block :
      (w : World) (b bi : ℕ)
      → b % bpb ≡ 0
      → bi < bpb
      → take_block sb b bi (w.blocks (bblock b sb)) w ≡ done (b + bi) (taken w (b + bi))
  unfolding take_block mark bzero read_block write_block
  taken-block w b bi al lt =
      let at : (b + bi) / bpb ≡ b / bpb = omega arith in
      let bit : (b + bi) % bpb ≡ bi = omega arith in rw (at, bit) refl

  -- The state after `b` is freed.
  abbrev pub freed : World → ℕ → World
  freed w b = record w {
    blocks = update w.blocks (bblock b sb) (unmark (w.blocks (bblock b sb)) (b % bpb));
    logged = bblock b sb ∷ w.logged;
  }

  -- The inner loop has searched one block of the map, from `b` on.
  pick-Allocates :
      (w : World) (b : ℕ) (r : Option ℕ) (rest : M ℕ)
      → MapInUse w
      → b % bpb ≡ 0
      → b < sb.size
      → ((c : ℕ) → c < b → c < sb.size → in_map w c ≡ true)
      → Clear (w.blocks (bblock b sb)) sb.size b 0 bpb r
      → (((c : ℕ) → c < b + bpb → c < sb.size → in_map w c ≡ true) → Allocates w (rest w))
      → Allocates w (found_in sb b (w.blocks (bblock b sb)) r rest w)
  unfolding found_in
  pick-Allocates w b none rest v al low before f k = k (λ c h s. elim (dec_lt c b) [
    | yes l ↦ before c l s
    | no g ↦
        in_block w b (c - b) c al (omega arith) (omega arith)
          (f (c - b) (omega arith) (omega arith) (omega arith))
  ])
  pick-Allocates w b (some bi) rest v al low before (lo, hi, less, free, first) k =
      rw (taken-block w b bi al hi) (
        taken-Allocates w (b + bi) v less (in_block w b bi (b + bi) al hi refl free) (λ c h.
          elim (dec_lt c b) [
            | yes l ↦ before c l (omega arith)
            | no g ↦
                in_block w b (c - b) c al (omega arith) (omega arith)
                  (first (c - b) (omega arith) (omega arith))
          ]))

  balloc_from-Allocates :
      (k b : ℕ) (w : World)
      → MapInUse w
      → b % bpb ≡ 0
      → ((c : ℕ) → c < b → c < sb.size → in_map w c ≡ true)
      → sb.size ≤ b + k * bpb
      → Allocates w (balloc_from sb k b w)
  unfolding balloc_from read_block
  balloc_from-Allocates zero b w v al before fuel = λ c h. before c (omega arith) h
  balloc_from-Allocates (suc k) b w v al before fuel = elim (Bool-cases (ltb b sb.size)) [
    | inl y ↦ rw y (
        pick-Allocates w b (find_clear (w.blocks (bblock b sb)) sb.size b 0 bpb)
          (balloc_from sb k (b + bpb)) v al (ground (arith, y)) before
          (find_clear-Clear (w.blocks (bblock b sb)) sb.size b 0 bpb)
          (λ done. balloc_from-Allocates k (b + bpb) w v (omega arith) done (omega arith)))
    | inr y ↦ rw y (λ c h. before c (ground (arith, y)) h)
  ]

  -- balloc() on a disk whose free map is itself in use takes the first block that is free: that block
  -- is then in use and holds zeros, no other bit of the map and no other block outside the map has
  -- changed, and the block and its block of the map went to log_write(). It panics only where every
  -- block is in use, and it always ends.
  pub balloc-Allocates : (w : World) → MapInUse w → Allocates w (balloc sb w)
  unfolding balloc
  balloc-Allocates w v =
      balloc_from-Allocates (sb.size / bpb + 1) 0 w v refl (λ c h. absurd (omega arith))
        (omega arith)

  -- bfree() clears the bit of its block and no other, leaves every block outside the free map alone, and
  -- panics exactly where the block was free.
  pub bfree-unmark :
      (w : World) (b : ℕ)
      → (in_map w b ≡ false) × (bfree sb b w ≡ panicked "freeing free block")
        ⊎ (in_map w b ≡ true)
          × (bfree sb b w ≡ done tt (freed w b))
          × ((c : ℕ) → in_map (freed w b) c ≡ (if b == c then false else in_map w c))
          × ((c : ℕ) → c ≢ bblock b sb → (freed w b).blocks c ≡ w.blocks c)
  unfolding bfree read_block write_block
  bfree-unmark w b = elim (Bool-cases (in_map w b)) [
    | inl y ↦ inr (
      y,
      rw y refl,
      λ c.
          in_map-update w.blocks b c (unmark (w.blocks (bblock b sb)) (b % bpb)) false
            (in_use-unmark (w.blocks (bblock b sb)) (b % bpb) (c % bpb)),
      λ c ne.
          update_other w.blocks (bblock b sb) (unmark (w.blocks (bblock b sb)) (b % bpb)) c
            (λ e. ne (sym e)),
    )
    | inr n ↦ inl (n, rw n refl)
  ]
