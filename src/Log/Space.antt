-- ===== src/Log/Space.antt =====
-- The log has room for every block of every call that begin_op() let in.
use large_project.Prelude.{
  ℕ, suc, ◌+◌, ◌-◌, ◌*◌, ◌≤◌, ◌<◌, ◌≡◌, refl, sym, subst, ◌⊎◌, inl, inr, ◌≢◌, Bool, true, false,
  List, [], ◌∷◌, ◌++◌, length, if◌then◌else◌, arith, Bool-cases, get_elem?, set, some, ap,
  length-append, length-set, ◌∙◌,
}
use large_project.Prelude.Int.{pos}
use large_project.Prelude.Param.{maxopblocks, logsize}
use large_project.Prelude.Outcome.{ok, panic}
use large_project.Log.{Log, begin_op, end_op_first, end_op_last, absorb, log_write}
use large_project.Log.Replay.{has}
use large_project.Log.Absorb.{length-absorb, log_write-ok}
use large_project.Log.Reserve.{
  Calls, Step, begins, sleeps, writes, ends, commits, Inv, total, AllLe, total-le, total-append,
  AllLe-remove, AllLe-set, AllLe-get, total-set, get_elem?-ne-nil, begin_op_begins, begin_op_sleeps,
  end_op_first_cases,
}

nil_of_length : (xs : List ℕ) → length xs ≡ 0 → xs ≡ []
nil_of_length [] e = refl
nil_of_length (x ∷ xs) e = absurd (omega arith)

begins-Inv :
    (s s' : Calls)
    → Inv s
    → begin_op s.log ≡ (s'.log, true)
    → s'.budgets ≡ maxopblocks ∷ s.budgets
    → Inv s'
begins-Inv s s' v e q =
    let (p, r, f) = begin_op_begins s.log (length s.budgets) v.counted e in
    record {
      counted = ground arith;
      within = rw q (omega arith, v.within);
      room = ground (arith, total-le maxopblocks s.budgets v.within);
      quiet = λ c. ground arith;
      clean = λ c d. ground arith;
      woken = inr (inr (ground arith));
    }

sleeps-Inv :
    (s s' : Calls) → Inv s → begin_op s.log ≡ (s'.log, false) → s'.budgets ≡ s.budgets → Inv s'
sleeps-Inv s s' v e q =
    let (p, f) = begin_op_sleeps s.log (length s.budgets) v.counted e in
    record {
      counted = ground arith;
      within = rw q v.within;
      room = ground arith;
      quiet = λ c. ground (arith, v.quiet);
      clean = λ c d. ground (arith, v.clean);
      woken = inr (busy p f);
    }
  where
    busy :
        (s.log.committing ≡ true)
          ⊎ (logsize < length s.log.lh + (length s.budgets + 1) * maxopblocks)
        → s'.log ≡ record s.log { sleepers = s.log.sleepers + 1 }
        → (s'.log.committing ≡ true) ⊎ (s'.budgets ≢ [])
    busy (inl c) f = inl (ground arith)
    busy (inr full) f = elim (Bool-cases s.log.committing) [
      | inl c ↦ inl (ground arith)
      | inr c ↦ inr (λ n. ground (arith, v.clean c, q))
    ]

writes-Inv :
    (s s' : Calls) (i k b : ℕ)
    → Inv s
    → get_elem? s.budgets i ≡ some (suc k)
    → log_write s.log b ≡ ok s'.log
    → s'.budgets ≡ set s.budgets i (if has b s.log.lh then suc k else k)
    → Inv s'
writes-Inv s s' i k b v g e q =
    let (p, r, f) = log_write-ok s.log b e in
    record {
      counted = ground (arith, f, same);
      within = rw q (AllLe-set maxopblocks s.budgets i left (ground (arith, few)) v.within);
      room = ground (arith, f, q, length-absorb s.log.lh b, total-set s.budgets i (suc k) left g);
      quiet = λ c. absurd (omega (arith, some_call, ap length (v.quiet (ground (arith, f)))));
      clean = λ c d. absurd (omega (arith, some_call, same, ap length d));
      woken = inr (inr (λ d. omega (arith, some_call, same, ap length d)));
    }
  where
    left : ℕ
    left = if has b s.log.lh then suc k else k

    few : suc k ≤ maxopblocks
    few = AllLe-get maxopblocks s.budgets i g v.within

    some_call : 0 < length s.budgets
    some_call = get_elem?-ne-nil s.budgets i g

    same : length s'.budgets ≡ length s.budgets
    same = ap length q ∙ length-set s.budgets i left

-- A call that ends takes its budget with it.
ends-Inv :
    (s s' : Calls) (pre post : List ℕ) (k : ℕ) (c : Bool)
    → Inv s
    → s.budgets ≡ pre ++ (k ∷ post)
    → end_op_first s.log ≡ ok (s'.log, c)
    → s'.budgets ≡ pre ++ post
    → Inv s'
ends-Inv s s' pre post k c v q e q' =
    let (p, f) = end_op_first_cases s.log (length (pre ++ post)) (v.counted ∙ ap pos size) e in
    record {
      counted = ground (arith, f, q');
      within = rw q' (AllLe-remove maxopblocks pre k post (subst (AllLe maxopblocks) q v.within));
      room = ground (arith, f, q, q', total-append pre (k ∷ post), total-append pre post);
      quiet = λ d. q' ∙ none_left (ground (arith, f, d, p));
      clean = λ d n. absurd (ground (arith, f, d, ap length (sym q' ∙ n)));
      woken = elim f [ inl z ↦ inr (inl (ground arith)) | inr z ↦ inl (ground arith) ];
    }
  where
    size : length s.budgets ≡ suc (length (pre ++ post))
    size = omega (arith, ap length q, length-append pre (k ∷ post), length-append pre post)

    none_left : length (pre ++ post) ≡ 0 → pre ++ post ≡ []
    none_left = nil_of_length (pre ++ post)

commits-Inv :
    (s s' : Calls)
    → Inv s
    → s.log.committing ≡ true
    → s'.log ≡ end_op_last (record s.log { lh = [] })
    → s'.budgets ≡ s.budgets
    → Inv s'
unfolding end_op_last
commits-Inv s s' v c e q = record {
  counted = ground arith;
  within = rw q v.within;
  room = ground (arith, v.quiet c);
  quiet = λ d. ground arith;
  clean = λ d n. ground arith;
  woken = inl (ground arith);
}

-- Every step keeps the invariant.
pub Step-Inv : {s s' : Calls} → Step s s' → Inv s → Inv s'
Step-Inv {s} {s'} (begins e q) v = begins-Inv s s' v e q
Step-Inv {s} {s'} (sleeps e q) v = sleeps-Inv s s' v e q
Step-Inv {s} {s'} (writes i k b g e q) v = writes-Inv s s' i k b v g e q
Step-Inv {s} {s'} (ends pre post k c q e q') v = ends-Inv s s' pre post k c v q e q'
Step-Inv {s} {s'} (commits c e q) v = commits-Inv s s' v c e q

pub data Reach (s : Calls) : Calls → Type 0 where
  here : Reach s s
  next : {t u : Calls} → Reach s t → Step t u → Reach s u

pub Reach-Inv : {s t : Calls} → Inv s → Reach s t → Inv t
Reach-Inv v here = v
Reach-Inv v (next r st) = Step-Inv st (Reach-Inv v r)

log_write-returns :
    (l : Log) (b n : ℕ)
    → l.outstanding ≡ pos (suc n)
    → length l.lh < logsize
    → length l.lh + 1 < l.size
    → log_write l b ≡ ok (record l { lh = absorb l.lh b })
unfolding log_write
log_write-returns l b n o p q = ground arith

size-Step : {s s' : Calls} → Step s s' → s'.log.size ≡ s.log.size
unfolding begin_op end_op_first end_op_last log_write
size-Step {s} {s'} (begins e q) = ground arith
size-Step {s} {s'} (sleeps e q) = ground arith
size-Step {s} {s'} (writes i k b g e q) = ground arith
size-Step {s} {s'} (ends pre post k c q e q') = ground arith
size-Step {s} {s'} (commits c e q) = ground arith

size-Reach : {s t : Calls} → Reach s t → t.log.size ≡ s.log.size
size-Reach here = refl
size-Reach (next r st) = size-Step st ∙ size-Reach r

abbrev pub fresh : ℕ → ℕ → Calls
fresh start size = record {
  log = record {
    start = start;
    size = size;
    outstanding = pos 0;
    committing = false;
    lh = [];
    sleepers = 0;
  };
  budgets = [];
}

fresh-Inv : (start size : ℕ) → Inv (fresh start size)
fresh-Inv start size = record {
  counted = refl;
  within = tt;
  room = omega arith;
  quiet = λ c. refl;
  clean = λ c d. refl;
  woken = inl refl;
}

-- In every state that calls can reach from a fresh log of more than LOGSIZE blocks, a call with
-- budget left writes any block without a panic.
pub log_write_safe :
    (start size i k b : ℕ) (s : Calls)
    → logsize < size
    → Reach (fresh start size) s
    → get_elem? s.budgets i ≡ some (suc k)
    → log_write s.log b ≡ ok (record s.log { lh = absorb s.log.lh b })
log_write_safe start size i k b s big r g =
    log_write-returns s.log b (length s.budgets - 1)
      (v.counted ∙ ap pos (omega (arith, get_elem?-ne-nil s.budgets i g)))
      (omega (arith, v.room, left)) (omega (arith, v.room, left, size-Reach r))
  where
    v : Inv s
    v = Reach-Inv (fresh-Inv start size) r

    left : 0 < total s.budgets
    left = omega (arith, total-set s.budgets i (suc k) 0 g)

-- In every state that calls can reach from a fresh log of any size: if a process sleeps in begin_op(),
-- then a commit runs, or a call is in progress.
pub no_lost_wakeup :
    (start size : ℕ) (s : Calls)
    → Reach (fresh start size) s
    → 0 < s.log.sleepers
    → (s.log.committing ≡ true) ⊎ (0 < length s.budgets)
no_lost_wakeup start size s r h = elim v.woken [
  | inl z ↦ absurd (omega arith)
  | inr (inl c) ↦ inl c
  | inr (inr ne) ↦ inr (pos_length s.budgets ne)
]
  where
    v : Inv s
    v = Reach-Inv (fresh-Inv start size) r

    pos_length : (ks : List ℕ) → ks ≢ [] → 0 < length ks
    pos_length [] n = absurd (n refl)
    pos_length (k ∷ ks) n = omega arith

-- A log of LOGSIZE blocks, header included, is too small by one: with 29 blocks logged every
-- log_write() panics, also of a call that begin_op() let in and that has budget left.
pub small_log_overflows :
    (l : Log) (b : ℕ)
    → l.size ≡ logsize
    → length l.lh + 1 ≡ logsize
    → log_write l b ≡ panic "too big a transaction"
unfolding log_write
small_log_overflows l b p q = ground arith
