-- ===== src/Fs/Reads.antt =====
-- readi() of a file: how much it reads, and that its loop has turns enough.
use Prim.Native.String.{String}
use large_project.Prelude.{
  ℕ, zero, suc, ◌+◌, ◌-◌, ◌*◌, ◌/◌, ◌%◌, ◌≤◌, ◌<◌, ◌≡◌, ◌≢◌, refl, ◌∙◌, ◌⊎◌, inl, inr, false,
  Option, none, some, List, [], ◌++◌, min, ltb, ◌==◌, if◌then◌else◌, arith, Bool-cases,
}
use large_project.Prelude.Param.{uint_mod}
use large_project.Fs.Layout.{
  Bytes, Super, get_word, bsize, bpb, bblock, ndirect, nindirect, maxfile,
}
use large_project.Fs.State.{
  Inode, World, Run, done, panicked, waits, M, then_run, read_block, write_block, get_inode,
}
use large_project.Fs.Blocks.{balloc, balloc_from, find_clear, found_in, take_block, bzero}
use large_project.Fs.Update.{set_addr, addr_entry, indirect_entry, bmap}
use large_project.Fs.Content.{Devsw, t_dev, take_bytes, byte_count, piece, read_bytes, readi}

abbrev no_blocks : String
no_blocks = "balloc: out of blocks"

-- A run that does not sleep and does not run out of turns, and whose value is right; it panics only
-- where balloc() has no free block.
unfoldable pub Fuelled : {A : Type 0} → (A → World → Type 0) → Run A → Type 0
Fuelled Right (done a w) = Right a w
Fuelled Right (panicked s) = s ≡ no_blocks
Fuelled Right (waits i w) = ⊥

Fuelled-then :
    {A B : Type 0} (Right : A → World → Type 0) (Then : B → World → Type 0) (r : Run A)
    (k : A → M B)
    → Fuelled Right r
    → ((a : A) (w : World) → Right a w → Fuelled Then (k a w))
    → Fuelled Then (then_run r k)
unfolding Fuelled
Fuelled-then Right Then (done a w) k h g = g a w h
Fuelled-then Right Then (panicked s) k h g = h
Fuelled-then Right Then (waits i w) k h g = elim h [ ]

abbrev Any : {A : Type 0} → A → World → Type 0
Any a w = Unit

done-Fuelled :
    {A : Type 0} (Right : A → World → Type 0) (a : A) (w : World)
    → Right a w
    → Fuelled Right (done a w)
unfolding Fuelled
done-Fuelled Right a w h = h

out_of_blocks : Fuelled (Any {A = ℕ}) (panicked no_blocks)
unfolding Fuelled
out_of_blocks = refl

byte_count-nil : byte_count [] ≡ 0
unfolding byte_count
byte_count-nil = refl

byte_count-take_bytes :
    (d : Bytes) (o m : ℕ) (more : List ℕ)
    → byte_count (take_bytes d o m ++ more) ≡ m + byte_count more
unfolding byte_count take_bytes
byte_count-take_bytes d o zero more = omega arith
byte_count-take_bytes d o (suc m) more =
    let rest = byte_count-take_bytes d (o + 1) m more in omega arith

module _ (sb : Super) where
  found_in-Fuelled :
      (b : ℕ) (bp : Bytes) (r : Option ℕ) (rest : M ℕ) (w : World)
      → Fuelled Any (rest w)
      → Fuelled Any (found_in sb b bp r rest w)
  unfolding found_in take_block bzero
  found_in-Fuelled b bp none rest w h = h
  found_in-Fuelled b bp (some bi) rest w h = done-Fuelled Any (b + bi) _ tt

  balloc_from-Fuelled : (k b : ℕ) (w : World) → Fuelled Any (balloc_from sb k b w)
  unfolding balloc_from read_block
  balloc_from-Fuelled zero b w = out_of_blocks
  balloc_from-Fuelled (suc k) b w = elim (Bool-cases (ltb b sb.size)) [
    | inl y ↦ rw y (
        found_in-Fuelled b (w.blocks (bblock b sb))
          (find_clear (w.blocks (bblock b sb)) sb.size b 0 bpb) (balloc_from sb k (b + bpb)) w
          (balloc_from-Fuelled k (b + bpb) w))
    | inr n ↦ rw n (out_of_blocks)
  ]

  balloc-Fuelled : (w : World) → Fuelled Any (balloc sb w)
  unfolding balloc
  balloc-Fuelled w = balloc_from-Fuelled (sb.size / bpb + 1) 0 w

  addr_entry-Fuelled : (ip i : ℕ) (w : World) → Fuelled Any (addr_entry sb ip i w)
  unfolding addr_entry get_inode set_addr
  addr_entry-Fuelled ip i w = elim (Bool-cases ((w.icache ip).addrs i == 0)) [
    | inl y ↦ rw y (
        Fuelled-then Any Any (balloc sb w) _ (balloc-Fuelled w) (λ a w' u. done-Fuelled Any a _ tt))
    | inr n ↦ rw n (done-Fuelled Any ((w.icache ip).addrs i) w tt)
  ]

  indirect_entry-Fuelled : (b i : ℕ) (w : World) → Fuelled Any (indirect_entry sb b i w)
  unfolding indirect_entry read_block write_block
  indirect_entry-Fuelled b i w = elim (Bool-cases (get_word (w.blocks b) (4 * i) == 0)) [
    | inl y ↦ rw y (
        Fuelled-then Any Any (balloc sb w) _ (balloc-Fuelled w) (λ a w' u. done-Fuelled Any a _ tt))
    | inr n ↦ rw n (done-Fuelled Any (get_word (w.blocks b) (4 * i)) w tt)
  ]

  bmap-Fuelled : (ip bn : ℕ) (w : World) → bn < maxfile → Fuelled Any (bmap sb ip bn w)
  unfolding bmap
  bmap-Fuelled ip bn w below = elim (Bool-cases (ltb bn ndirect)) [
    | inl y ↦ rw y (addr_entry-Fuelled ip bn w)
    | inr n ↦ elim (Bool-cases (ltb (bn - ndirect) nindirect)) [
      | inl y ↦
          rw (n, y)
            (Fuelled-then Any Any (addr_entry sb ip ndirect w) _ (addr_entry-Fuelled ip ndirect w)
              (λ a w' u. indirect_entry-Fuelled a (bn - ndirect) w'))
      | inr f ↦ absurd (ground (arith, n, f, below))
    ]
  ]

  module _ (devsw : ℕ → Devsw) where
    -- The bytes are `n`.
    abbrev Counts : ℕ → List ℕ → World → Type 0
    Counts n bs w = byte_count bs ≡ n

    read_bytes-Counts :
        (fuel ip off l : ℕ) (w : World)
        → l ≤ fuel
        → off + l ≤ maxfile * bsize
        → Fuelled (Counts l) (read_bytes sb devsw fuel ip off l w)
    unfolding read_bytes read_block
    read_bytes-Counts fuel ip off zero w le fits = done-Fuelled (Counts 0) [] w byte_count-nil
    read_bytes-Counts zero ip off (suc l) w le fits = absurd (omega arith)
    read_bytes-Counts (suc fuel) ip off (suc l) w le fits =
        Fuelled-then Any (Counts (suc l)) (bmap sb ip (off / bsize) w) _
          (bmap-Fuelled ip (off / bsize) w (omega arith))
          (λ b w1 u.
            Fuelled-then (Counts (suc l - m)) (Counts (suc l))
              (read_bytes sb devsw fuel ip (off + m) (suc l - m) w1) _
              (read_bytes-Counts fuel ip (off + m) (suc l - m) w1 (omega arith) (omega arith))
              (λ more w2 e.
                done-Fuelled (Counts (suc l)) _ w2 (
                  let c = byte_count-take_bytes (w1.blocks b) (off % bsize) m more in omega arith)))
      where
        m : ℕ
        m = piece off (suc l)

    -- What readi() of a file with the inode `e` returns: -1 where `off` is behind the end or `off + n` wraps,
    -- and otherwise `n` bytes, or those up to the end of the file.
    abbrev pub ReadsFile : Inode → ℕ → ℕ → Option (List ℕ) → World → Type 0
    ReadsFile e off n none w = (e.size < off) ⊎ (uint_mod ≤ off + n)
    ReadsFile e off n (some bs) w =
        (off ≤ e.size) × (off + n < uint_mod) × (byte_count bs ≡ min n (e.size - off))

    -- The `n` of readi() after the test against the end of the file.
    abbrev clip : ℕ → ℕ → ℕ → ℕ
    clip size off n =
        if ltb size ((off + n) % uint_mod) then (size + uint_mod - off) % uint_mod else n

    clip-min :
        (size off n : ℕ)
        → off ≤ size
        → off + n < uint_mod
        → size < uint_mod
        → clip size off n ≡ min n (size - off)
    clip-min size off n a b c =
        let same : (off + n) % uint_mod ≡ off + n = omega arith in
        let less : (size + uint_mod - off) % uint_mod ≡ size - off = omega arith in
        rw (same, less) (ground arith)

    -- readi() of a file or a directory that is no longer than a file may be, with an unsigned offset and
    -- length, returns -1 exactly where the offset is behind the end or the sum of offset and length
    -- wraps, and otherwise as many bytes as were asked for or as there are up to the end. It does not
    -- sleep, its loop never runs out of turns, and its only panic is that of balloc(), out of blocks.
    pub readi-Reads :
        (ip off n : ℕ) (w : World)
        → (w.icache ip).kind ≢ t_dev
        → (w.icache ip).size ≤ maxfile * bsize
        → off < uint_mod
        → n < uint_mod
        → Fuelled (ReadsFile (w.icache ip) off n) (readi sb devsw ip off n w)
    unfolding readi get_inode
    readi-Reads ip off n w file short off_small n_small =
        let plain : ((w.icache ip).kind == t_dev) ≡ false = ground arith in
        elim (Bool-cases (ltb (w.icache ip).size off)) [
          | inl y ↦
              rw (plain, y)
                (done-Fuelled (ReadsFile (w.icache ip) off n) none w (inl (ground (arith, y))))
          | inr a ↦ elim (Bool-cases (ltb ((off + n) % uint_mod) off)) [
            | inl y ↦
                rw (plain, a, y)
                  (done-Fuelled (ReadsFile (w.icache ip) off n) none w
                    (inr (wrapped off n off_small n_small (ground (arith, y)))))
            | inr b ↦
                let le : off ≤ (w.icache ip).size = ground (arith, a) in
                let no_wrap = unwrapped off n off_small n_small (ground (arith, b)) in
                let clipped = clip-min (w.icache ip).size off n le no_wrap (omega arith) in
                rw (plain, a, b)
                  (Fuelled-then (Counts (clip (w.icache ip).size off n))
                    (ReadsFile (w.icache ip) off n)
                    (read_bytes sb devsw (clip (w.icache ip).size off n) ip off
                      (clip (w.icache ip).size off n) w)
                    _
                    (read_bytes-Counts (clip (w.icache ip).size off n) ip off
                      (clip (w.icache ip).size off n) w (omega arith) (rw clipped (omega arith)))
                    (λ bs w' e.
                      done-Fuelled (ReadsFile (w.icache ip) off n) (some bs) w'
                        (le, no_wrap, e ∙ clipped)))
          ]
        ]
      where
        wrapped :
            (x y : ℕ) → x < uint_mod → y < uint_mod → (x + y) % uint_mod < x → uint_mod ≤ x + y
        wrapped x y h k lt = omega arith

        unwrapped :
            (x y : ℕ) → x < uint_mod → y < uint_mod → x ≤ (x + y) % uint_mod → x + y < uint_mod
        unwrapped x y h k le = omega arith
