-- ===== src/File/Io/Chunks.antt =====
-- filewrite(): the transactions that it cuts a write into.
use large_project.Prelude.{
  ℕ, zero, suc, ◌+◌, ◌-◌, ◌*◌, ◌≤◌, ◌<◌, ◌≡◌, refl, sym, ap, subst, ◌∙◌, Bool, true, false, not,
  ◌==◌, if◌then◌else◌, arith, Bool-cases, inl, inr,
}
use large_project.Prelude.Int.{pos, ltb_ℤ}
use large_project.Prelude.Outcome.{Outcome, ok, ◌>>=◌}
use large_project.File.{File, FileType, fd_none, fd_pipe, fd_inode}
use large_project.File.Io.{Below, chunk, write_chunks, filewrite, written_all}

nonneg : (n : ℕ) → ltb_ℤ (pos n) (pos 0) ≡ false
nonneg n = ground arith

same : (n : ℕ) → (n == n) ≡ true
same n = ground arith

zero_left : (left : ℕ) → left ≤ 0 → (left == 0) ≡ true
zero_left left h = ground arith

zero_off : (off left : ℕ) → left ≤ 0 → off ≡ off + left
zero_off off left h = omega arith

chunk_off : (off left : ℕ) → off + chunk left + (left - chunk left) ≡ off + left
chunk_off off left = ground arith

-- A turn of the loop makes progress.
chunk-le : (k left : ℕ) → left ≤ suc k → (left == 0) ≡ false → left - chunk left ≤ k
chunk-le k left h z = ground arith

chunk-positive : (left : ℕ) → (left == 0) ≡ false → 0 < chunk left
chunk-positive left z = ground arith

chunk-small : (left : ℕ) → chunk left ≤ 3 * 512
chunk-small left = ground arith

chunk-fits : (off left limit : ℕ) → off + left ≤ limit → off + chunk left ≤ limit
chunk-fits off left limit h = ground arith

at_offset :
    {S : Type 0} (f : File) (s : S) {off : ℕ}
    → f.off ≡ off
    → ◌≡◌ {A = Outcome (Bool × File × S)} (ok (true, f, s)) (ok (true, record f { off = off }, s))
at_offset f s e = ap (λ o. ok (true, record f { off = o }, s)) e

if-writable : {A : Type 0} (w : Bool) → w ≡ true → (x y : A) → (if not w then x else y) ≡ y
if-writable w e x y = rw e refl

elim-inode :
    {A : Type 0} (k : FileType)
    → k ≡ fd_inode
    → (x y z : A) → (elim k [ fd_pipe ↦ x | fd_inode ↦ y | fd_none ↦ z ]) ≡ y
elim-inode k e x y z = rw e refl

module _ (below : Below) where
  open below use {State, writei, ilock, iunlock, begin_op, end_op}

  -- The rest of the kernel after one transaction.
  abbrev pub after_chunk : ℕ → ℕ → ℕ → ℕ → State → State
  after_chunk ip addr off n s = end_op (iunlock ip (writei ip addr off n (ilock ip (begin_op s))).1)

  -- `Ready off` says of a state that the inode has `off` bytes at least and that the disk has room for
  -- it to grow up to `limit`: then writei() of a transaction that writes at most three blocks' bytes at
  -- `off`, and none behind `limit`, writes all, and the state is ready for the offset behind.
  abbrev pub HasRoom : (ℕ → State → Type 0) → ℕ → ℕ → Type 0
  HasRoom Ready ip limit =
      (addr off n : ℕ) (s : State)
      → Ready off s
      → 0 < n
      → n ≤ 3 * 512
      → off + n ≤ limit
      → ((writei ip addr off n (ilock ip (begin_op s))).0 ≡ pos n)
        × Ready (off + n) (after_chunk ip addr off n s)

  write_chunks-step :
      (k : ℕ) (f : File) (addr left : ℕ) (s : State)
      → (left == 0) ≡ false
      → (writei f.ip addr f.off (chunk left) (ilock f.ip (begin_op s))).0 ≡ pos (chunk left)
      → write_chunks below (suc k) f addr left s
        ≡ write_chunks below k
            (record f { off = f.off + chunk left })
            (addr + chunk left)
            (left - chunk left)
            (after_chunk f.ip addr f.off (chunk left) s)
  unfolding write_chunks
  write_chunks-step k f addr left s h wrote =
      rw (h, wrote) (rw (nonneg (chunk left), same (chunk left)) refl)

  write_chunks-all :
      (Ready : ℕ → State → Type 0) (ip limit : ℕ)
      → HasRoom Ready ip limit
      → (k : ℕ) (f : File) (addr left : ℕ) (s : State) → f.ip ≡ ip
      → left ≤ k
      → f.off + left ≤ limit
      → Ready f.off s
      → (s' : State) × (write_chunks below k f addr left s
          ≡ ok (true, record f { off = f.off + left }, s'))
        × Ready (f.off + left) s'
  unfolding write_chunks
  write_chunks-all Ready ip limit room zero f addr left s at h fits ready = (
    s,
    rw (zero_left left h) (at_offset f s (zero_off f.off left h)),
    subst (λ o. Ready o s) (zero_off f.off left h) ready,
  )
  write_chunks-all Ready ip limit room (suc k) f addr left s at h fits ready =
      elim (Bool-cases (left == 0)) [
        | inl z ↦
            let e = zero_off f.off left (ground arith) in
            (s, rw z (at_offset f s e), subst (λ o. Ready o s) e ready)
        | inr z ↦
            let (wrote, next) =
              subst (λ i. HasRoom Ready i limit) (sym at) room addr f.off (chunk left) s ready
                (chunk-positive left z) (chunk-small left) (chunk-fits f.off left limit fits) in
            let (s', e, ready') =
              write_chunks-all Ready ip limit room k (record f { off = f.off + chunk left })
                (addr + chunk left) (left - chunk left) (after_chunk f.ip addr f.off (chunk left) s)
                at (chunk-le k left h z) (rw (chunk_off f.off left) fits) next in
            (
              s',
              write_chunks-step k f addr left s z wrote
                  ∙ e
                  ∙ ap (λ o. ok (true, record f { off = o }, s')) (chunk_off f.off left),
              subst (λ o. Ready o s') (chunk_off f.off left) ready',
            )
      ]

  -- Where the inode of a file that is open for writing has at least as many bytes as the file's
  -- offset, and writei() writes all of up to three blocks' bytes at a time as long as they end below
  -- `limit`, filewrite() of `n` bytes that end there returns `n` without a panic, and the offset has
  -- moved on by `n`: it never asks writei() for more in one transaction, nor for none, and each begins
  -- where the one before it has ended.
  pub filewrite-all :
      (Ready : ℕ → State → Type 0) (limit : ℕ) (f : File) (addr n : ℕ) (s : State)
      → HasRoom Ready f.ip limit
      → f.writable ≡ true
      → f.kind ≡ fd_inode
      → f.off + n ≤ limit
      → Ready f.off s
      → (s' : State) × (filewrite below f addr n s ≡ ok (pos n, record f { off = f.off + n }, s'))
        × Ready (f.off + n) s'
  unfolding filewrite written_all
  filewrite-all Ready limit f addr n s room w k fits ready =
      let (s', e, ready') =
        write_chunks-all Ready f.ip limit room n f addr n s refl (omega arith) fits ready in
      (
        s',
        if-writable f.writable w _ _
            ∙ elim-inode f.kind k _ _ _
            ∙ ap (λ (r : Outcome (Bool × File × State)). r >>= written_all below n) e,
        ready',
      )
