-- ===== src/Pipe/Contents.antt =====
-- The bytes in a pipe, oldest first.
use large_project.Prelude.{
  ℕ, zero, suc, ◌+◌, ◌-◌, ◌%◌, ◌≤◌, ◌<◌, ◌≡◌, refl, ap, ap₂, subst, true, false, List, [], ◌∷◌,
  ◌++◌, arith, length,
}
use large_project.Prelude.Param.{uint_mod}
use large_project.Disk.{update}
use large_project.Pipe.{Pipe, pipesize, is_full, is_empty}

-- `n` bytes of the ring from counter `r` on.
abbrev pub window : (ℕ → ℕ) → ℕ → ℕ → List ℕ
window bytes r zero = []
window bytes r (suc n) = bytes (r % pipesize) ∷ window bytes ((r + 1) % uint_mod) n

-- The number of bytes that are written and not read, by `uint` subtraction.
abbrev pub count : Pipe → ℕ
count p = (p.nwrite + uint_mod - p.nread) % uint_mod

abbrev pub contents : Pipe → List ℕ
contents p = window p.data' p.nread (count p)

-- The counters are `uint`, and the writer is at most PIPESIZE ahead.
pub record IsValid (p : Pipe) : Type 0 where
  pub nread_lt : p.nread < uint_mod
  pub nwrite_lt : p.nwrite < uint_mod
  pub bounded : count p ≤ pipesize

pub length-window : (bytes : ℕ → ℕ) (r n : ℕ) → length (window bytes r n) ≡ n
length-window bytes r zero = refl
length-window bytes r (suc n) = ap suc (length-window bytes ((r + 1) % uint_mod) n)

-- A write at the end of a window that is not the whole ring extends it.
pub window-snoc :
    (bytes : ℕ → ℕ) (r n x : ℕ)
    → r < uint_mod
    → n < pipesize
    → window (update bytes ((r + n) % uint_mod % pipesize) x) r (suc n)
      ≡ window bytes r n ++ (x ∷ [])
window-snoc bytes r zero x hr hn = ap (λ t. t ∷ []) (ground arith)
window-snoc bytes r (suc n) x hr hn = ap₂ ◌∷◌ (ground arith) (
    subst
      (λ k.
        window (update bytes (k % pipesize) x) ((r + 1) % uint_mod) (suc n)
        ≡ window bytes ((r + 1) % uint_mod) n ++ (x ∷ []))
      (omega arith) (window-snoc bytes ((r + 1) % uint_mod) n x (omega arith) (omega arith)))

pub is_full-count : (p : Pipe) → IsValid p → is_full p ≡ true → count p ≡ pipesize
is_full-count p v h = ground (arith, v.nread_lt, v.nwrite_lt)

pub is_full-lt : (p : Pipe) → IsValid p → is_full p ≡ false → count p < pipesize
is_full-lt p v h = ground (arith, v.nread_lt, v.nwrite_lt, v.bounded)

pub is_empty-count : (p : Pipe) → IsValid p → is_empty p ≡ true → count p ≡ 0
is_empty-count p v h = ground (arith, v.nread_lt)

pub is_empty-pos : (p : Pipe) → IsValid p → is_empty p ≡ false → 0 < count p
is_empty-pos p v h = ground (arith, v.nread_lt, v.nwrite_lt)
