-- ===== src/Disk.antt =====
-- The block device under the file system: what `bread` and `bwrite` (bio.c, ide.c) promise to
-- log.c and fs.c, with power failures. `cache b` is the data that `bread` returns for block `b`:
-- that of its buffer if one holds it, of the disk otherwise.
-- The machine stops after `writes_left` further disk writes, and keeps the disk alone.
pub mod Triple
use Prim.Native.String.{String}
use large_project.Prelude.{ℕ, zero, suc, ◌≡◌, ◌≢◌, if◌then◌else◌, ◌==◌, arith}

-- The data of a block as its BSIZE / sizeof(uint) words.
abbrev pub Block : Type 0
Block = ℕ → ℕ

abbrev pub Disk : Type 0
Disk = ℕ → Block

pub record Machine : Type 0 where
  pub disk : Disk
  pub cache : Disk
  pub writes_left : ℕ

pub data Run (A : Type 0) : Type 0 where
  done : A → Machine → Run A
  panicked : String → Run A
  crashed : Disk → Run A

abbrev pub M : Type 0 → Type 0
M A = Machine → Run A

abbrev pub bind : {A B : Type 0} → Run A → (A → M B) → Run B
bind (done a m) f = f a m
bind (panicked s) f = panicked s
bind (crashed d) f = crashed d

infixl 5 ◌>>=◌
abbrev pub ◌>>=◌ : {A B : Type 0} (run : M A) (rest : A → M B) → M B
◌>>=◌ run rest m = bind (run m) rest

infixl 5 ◌>>◌
abbrev pub ◌>>◌ : {B : Type 0} (run : M (Unit {0})) (rest : M B) → M B
run >> rest = run >>= λ r. rest

abbrev pub pure : {A : Type 0} → A → M A
pure a m = done a m

abbrev pub stop : {A : Type 0} → String → M A
stop s m = panicked s

abbrev pub update {ℓ} : {A : Type ℓ} (f : ℕ → A) (b : ℕ) (v : A) → ℕ → A
update f b v c = if b == c then v else f c

-- bread()
unfoldable pub bread : ℕ → M Block
bread b m = done (m.cache b) m

-- The machine after a write of `v` to block `b`, with `k` writes left.
abbrev pub written : Machine → ℕ → Block → ℕ → Machine
written m b v k = record { disk = update m.disk b v; cache = update m.cache b v; writes_left = k }

-- bwrite() of a buffer for block `b` that holds `v`
unfoldable pub bwrite : ℕ → Block → M (Unit {0})
bwrite b v m = elim m.writes_left [ zero ↦ crashed m.disk | suc k ↦ done tt (written m b v k) ]

-- What a machine finds when it starts again.
abbrev pub boot : Disk → ℕ → Machine
boot d k = record { disk = d; cache = d; writes_left = k }

pub update_self {ℓ} : {A : Type ℓ} (f : ℕ → A) (b : ℕ) (v : A) → update f b v b ≡ v
update_self f b v = ground arith

pub update_other {ℓ} :
    {A : Type ℓ} (f : ℕ → A) (b : ℕ) (v : A) (c : ℕ) → b ≢ c → update f b v c ≡ f c
update_other f b v c ne = ground arith
