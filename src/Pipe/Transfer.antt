-- ===== src/Pipe/Transfer.antt =====
-- pipewrite() and piperead() are the two ends of one queue of at most PIPESIZE bytes.
use large_project.Prelude.{
  ℕ, zero, suc, ◌+◌, ◌%◌, ◌<◌, ◌≡◌, ◌≢◌, refl, sym, ap, ◌∙◌, ◌⊎◌, inl, inr, Bool, true, false, not,
  ◌||◌, List, [], ◌∷◌, ◌++◌, if◌then◌else◌, arith, Bool-cases, length, min, append-nil,
  append_assoc,
}
use large_project.Prelude.Int.{pos, negsuc}
use large_project.Prelude.Param.{uint_mod}
use large_project.Disk.{update}
use large_project.Pipe.{
  wake_writers, Pipe, pipesize, is_full, is_empty, put, Writes, returns, sleeps, Reads, fails,
  reads, pipewrite, piperead, piperead_copy,
}
use large_project.Pipe.Contents.{
  window, count, contents, IsValid, window-snoc, is_full-count, is_full-lt, is_empty-count,
  is_empty-pos,
}

count-put : (p : Pipe) (x : ℕ) → IsValid p → count p < pipesize → count (put p x) ≡ suc (count p)
count-put p x v h = ground (arith, v.nread_lt, v.nwrite_lt)

put-IsValid : (p : Pipe) (x : ℕ) → IsValid p → count p < pipesize → IsValid (put p x)
put-IsValid p x v h = record {
  nread_lt = v.nread_lt;
  nwrite_lt = omega arith;
  bounded = omega (arith, count-put p x v h);
}

contents-put :
    (p : Pipe) (x : ℕ)
    → IsValid p
    → count p < pipesize
    → contents (put p x) ≡ contents p ++ (x ∷ [])
contents-put p x v h =
    ap (window (put p x).data' p.nread) (count-put p x v h)
    ∙ ap (λ k. window (update p.data' (k % pipesize) x) p.nread (suc (count p))) at_end
    ∙ window-snoc p.data' p.nread (count p) x v.nread_lt h
  where
    at_end : p.nwrite ≡ (p.nread + count p) % uint_mod
    at_end = omega (arith, v.nread_lt, v.nwrite_lt)

asleep-IsValid : (p : Pipe) (r w : ℕ) → IsValid p → IsValid (record p { readers = r; writers = w })
asleep-IsValid p r w v = record {
  nread_lt = v.nread_lt;
  nwrite_lt = v.nwrite_lt;
  bounded = v.bounded;
}

-- What a call of pipewrite() with `n`, at the bytes `xs`, has done.
pub record Written (killed : Bool) (n : ℕ) (xs : List ℕ) (p : Pipe) (r : Writes × Pipe)
    : Type 0 where
  pub done : List ℕ
  pub left : List ℕ
  pub parts : xs ≡ done ++ left
  pub bytes : contents r.1 ≡ contents p ++ done
  pub valid : IsValid r.1
  pub result :
      ((left ≡ []) × (r.0 ≡ returns (pos n)) × (r.1.readers ≡ 0))
      ⊎ ((left ≢ [])
          × (count r.1 ≡ pipesize)
          × (r.0 ≡ (if not p.readopen || killed then returns (negsuc 0) else sleeps left))
          × (r.1.readers ≡ (if not p.readopen || killed then p.readers else 0)))

-- A call of pipewrite() with `n` and the bytes `xs`, on a valid pipe, leaves a valid pipe with a first
-- part of `xs` written behind what it held. Either that was all, it returns `n`, and no reader
-- sleeps; or the pipe is full, and it fails with -1 if no reader is left or the process was killed,
-- and otherwise sleeps with the rest to write, with no reader asleep.
pub pipewrite-Written :
    (killed : Bool) (n : ℕ) (xs : List ℕ) (p : Pipe)
    → IsValid p
    → Written killed n xs p (pipewrite killed n xs p)
unfolding pipewrite
pipewrite-Written killed n [] p v = record {
  done = [];
  left = [];
  parts = refl;
  bytes = sym (append-nil (contents p));
  valid = asleep-IsValid p 0 p.writers v;
  result = inl (refl, refl, refl);
}
pipewrite-Written killed n (x ∷ xs) p v = elim (Bool-cases (is_full p)) [
  | inl f ↦ elim (Bool-cases (not p.readopen || killed)) [
    | inl d ↦
        rw (f, d)
          (record {
            done = [];
            left = x ∷ xs;
            parts = refl;
            bytes = sym (append-nil (contents p));
            valid = v;
            result = inr (λ e. cc, is_full-count p v f, rw d refl, rw d refl);
          })
    | inr d ↦
        rw (f, d)
          (record {
            done = [];
            left = x ∷ xs;
            parts = refl;
            bytes = sym (append-nil (contents p));
            valid = asleep-IsValid p 0 (p.writers + 1) v;
            result = inr (λ e. cc, is_full-count p v f, rw d refl, rw d refl);
          })
  ]
  | inr f ↦
      let w = pipewrite-Written killed n xs (put p x) (put-IsValid p x v (is_full-lt p v f)) in
      rw f (record {
        done = x ∷ w.done;
        left = w.left;
        parts = ap (λ t. x ∷ t) w.parts;
        bytes =
            w.bytes
            ∙ ap (λ t. t ++ w.done) (contents-put p x v (is_full-lt p v f))
            ∙ append_assoc (contents p) (x ∷ []) w.done;
        valid = w.valid;
        result = w.result;
      })
]

abbrev next_read : Pipe → Pipe
next_read p = record p { nread = (p.nread + 1) % uint_mod }

count-next_read : (p : Pipe) → IsValid p → 0 < count p → suc (count (next_read p)) ≡ count p
count-next_read p v h = ground (arith, v.nread_lt, v.nwrite_lt)

next_read-IsValid : (p : Pipe) → IsValid p → 0 < count p → IsValid (next_read p)
next_read-IsValid p v h = record {
  nread_lt = omega arith;
  nwrite_lt = v.nwrite_lt;
  bounded = omega (arith, count-next_read p v h, v.bounded);
}

contents-next_read :
    (p : Pipe)
    → IsValid p
    → 0 < count p
    → p.data' (p.nread % pipesize) ∷ contents (next_read p) ≡ contents p
contents-next_read p v h = ap (window p.data' p.nread) (count-next_read p v h)

-- The copying loop takes the oldest bytes, as many as are wanted and there, and leaves the rest.
pub record Taken (n : ℕ) (p : Pipe) (bs : List ℕ) (p' : Pipe) : Type 0 where
  pub bytes : bs ++ contents p' ≡ contents p
  pub number : length bs ≡ min n (count p)
  pub valid : IsValid p'

piperead_copy-Taken :
    (n : ℕ) (p : Pipe) → IsValid p → Taken n p (piperead_copy n p).0 (piperead_copy n p).1
unfolding piperead_copy
piperead_copy-Taken zero p v = record { bytes = refl; number = omega arith; valid = v }
piperead_copy-Taken (suc n) p v = elim (Bool-cases (is_empty p)) [
  | inl e ↦ rw e (record { bytes = refl; number = omega (arith, is_empty-count p v e); valid = v })
  | inr e ↦
      let pos_count = is_empty-pos p v e in
      let t = piperead_copy-Taken n (next_read p) (next_read-IsValid p v pos_count) in
      rw e (record {
        bytes =
            ap (λ u. p.data' (p.nread % pipesize) ∷ u) t.bytes ∙ contents-next_read p v pos_count;
        number = omega (arith, t.number, count-next_read p v pos_count);
        valid = t.valid;
      })
]

-- A call of piperead() of `n` bytes from a valid pipe. It waits exactly on an empty pipe with a
-- writer left: it then fails if the process was killed and sleeps otherwise, and changes nothing but
-- the number of sleepers. In all other cases it returns the oldest bytes, as many as are wanted and
-- there, leaves the rest in the pipe, and no writer sleeps.
pub piperead-Taken :
    (killed : Bool) (n : ℕ) (p : Pipe)
    → IsValid p
    → ((count p ≡ 0)
        × (p.writeopen ≡ true)
        × (piperead killed n p ≡ (
            if killed then (fails, p) else (Reads.sleeps, record p { readers = p.readers + 1 }))))
      ⊎ (((0 < count p) ⊎ (p.writeopen ≡ false))
          × (bs : List ℕ) × (p' : Pipe) × (piperead killed n p ≡ (reads bs, p'))
          × (p'.writers ≡ 0)
          × Taken n p bs p')
unfolding piperead
piperead-Taken killed n p v = elim (Bool-cases (is_empty p)) [
  | inl e ↦ elim (Bool-cases p.writeopen) [
    | inl w ↦ inl (is_empty-count p v e, w, rw (e, w))
    | inr w ↦ inr (inr w, (piperead_copy n p).0, left, rw (e, w), refl, taken)
  ]
  | inr e ↦ inr (inl (is_empty-pos p v e), (piperead_copy n p).0, left, rw e, refl, taken)
]
  where
    left : Pipe
    left = wake_writers (piperead_copy n p).1

    taken : Taken n p (piperead_copy n p).0 left
    taken =
        let t = piperead_copy-Taken n p v in
        record {
          bytes = t.bytes;
          number = t.number;
          valid = asleep-IsValid (piperead_copy n p).1 (piperead_copy n p).1.readers 0 t.valid;
        }
