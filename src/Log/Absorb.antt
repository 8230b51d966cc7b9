-- ===== src/Log/Absorb.antt =====
-- log_write(): which blocks the log holds after it.
use large_project.Prelude.{
  ℕ, ◌+◌, ◌≤◌, ◌<◌, ◌≡◌, refl, sym, subst, ◌≢◌, true, false, List, [], ◌∷◌, length, ◌==◌,
  if◌then◌else◌, arith,
}
use large_project.Prelude.Outcome.{ok}
use large_project.Log.{Log, absorb, log_write}
use large_project.Log.Replay.{has, Outside, AllOutside}

-- No block is logged twice.
abbrev pub Distinct : List ℕ → Type 0
Distinct [] = Unit
Distinct (x ∷ xs) = (has x xs ≡ false) × Distinct xs

has-absorb : (bs : List ℕ) (b c : ℕ) → has c (absorb bs b) ≡ (if b == c then true else has c bs)
unfolding absorb
has-absorb [] b c = refl
has-absorb (x ∷ xs) b c = ground (arith, has-absorb xs b c)

absorb-Distinct : (bs : List ℕ) (b : ℕ) → Distinct bs → Distinct (absorb bs b)
unfolding absorb
absorb-Distinct [] b d = (refl, tt)
absorb-Distinct (x ∷ xs) b d = ground (arith, absorb-Distinct xs b d.1, has-absorb xs b x)

pub absorb-AllOutside :
    (start size : ℕ) (bs : List ℕ) (b : ℕ)
    → Outside start size b
    → AllOutside start size bs
    → AllOutside start size (absorb bs b)
unfolding absorb
absorb-AllOutside start size [] b o h = (o, tt)
absorb-AllOutside start size (x ∷ xs) b o h =
    ground (arith, absorb-AllOutside start size xs b o h.1)

-- The log grows by one entry for a block that it does not hold, and not at all otherwise.
pub length-absorb :
    (bs : List ℕ) (b : ℕ) → length (absorb bs b) ≡ (if has b bs then length bs else length bs + 1)
unfolding absorb
length-absorb [] b = refl
length-absorb (x ∷ xs) b = ground (arith, length-absorb xs b)

-- The guards that a log_write() which returns has passed.
pub log_write-ok :
    (l : Log) (b : ℕ) {l' : Log}
    → log_write l b ≡ ok l'
    → (length l.lh < 30) × (length l.lh + 1 < l.size) × (l' ≡ record l { lh = absorb l.lh b })
unfolding log_write
log_write-ok l b h = (ground arith, ground arith, ground arith)

-- What a log_write() that returns has done: block `b` is logged, and so are exactly the other
-- blocks that were; the log is longer by one exactly if `b` is new, still fits the `size - 1`
-- blocks behind the header and LOGSIZE, stays free of duplicates and outside its own region if it
-- was and `b` is; and nothing else of the log has changed.
pub record Logged (l : Log) (b : ℕ) (l' : Log) : Type 0 where
  pub member : has b l'.lh ≡ true
  pub others : (c : ℕ) → c ≢ b → has c l'.lh ≡ has c l.lh
  pub grown : length l'.lh ≡ (if has b l.lh then length l.lh else length l.lh + 1)
  pub fits : length l'.lh < l.size
  pub short : length l'.lh ≤ 30
  pub distinct : Distinct l.lh → Distinct l'.lh
  pub outside :
      Outside l.start l.size b → AllOutside l.start l.size l.lh → AllOutside l.start l.size l'.lh
  pub frame : l' ≡ record l { lh = l'.lh }

absorb-Logged :
    (l : Log) (b : ℕ)
    → length l.lh < 30
    → length l.lh + 1 < l.size
    → Logged l b (record l { lh = absorb l.lh b })
absorb-Logged l b p q = record {
  member = ground (arith, has-absorb l.lh b b);
  others = λ c ne. ground (arith, has-absorb l.lh b c);
  grown = length-absorb l.lh b;
  fits = ground (arith, length-absorb l.lh b);
  short = ground (arith, length-absorb l.lh b);
  distinct = absorb-Distinct l.lh b;
  outside = absorb-AllOutside l.start l.size l.lh b;
  frame = refl;
}

-- A log_write() that returns has logged block `b` in the sense of `Logged`.
pub log_write-Logged : (l : Log) (b : ℕ) {l' : Log} → log_write l b ≡ ok l' → Logged l b l'
log_write-Logged l b h =
    let (p, q, e) = log_write-ok l b h in subst (Logged l b) (sym e) (absorb-Logged l b p q)
