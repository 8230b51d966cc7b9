-- ===== src/Fs/State.antt =====
-- The state that a call of fs.c works on: the blocks as bread() returns them within the transaction,
-- the blocks that were given to log_write(), and the table of inodes. A call that has to sleep for
-- a lock ends there, in `waits`.
use Prim.Native.String.{String}
use large_project.Prelude.{ℕ, Bool, List, ◌∷◌}
use large_project.Disk.{update}
use large_project.Sleeplock.{Sleeplock}
use large_project.Fs.Layout.{Bytes}

-- struct inode, with `lock` and `flock`
pub record Inode : Type 0 where
  pub dev : ℕ
  pub inum : ℕ
  pub ref : ℕ
  pub flock : Sleeplock
  pub lock : Sleeplock
  pub valid : Bool
  pub kind : ℕ
  pub major : ℕ
  pub minor : ℕ
  pub nlink : ℕ
  pub size : ℕ
  pub addrs : ℕ → ℕ

-- `logged` has the last call of log_write() first. An entry of `icache` is an index.
pub record World : Type 0 where
  pub blocks : ℕ → Bytes
  pub logged : List ℕ
  pub icache : ℕ → Inode

pub data Run (A : Type 0) : Type 0 where
  done : A → World → Run A
  panicked : String → Run A
  waits : ℕ → World → Run A

abbrev pub M : Type 0 → Type 0
M A = World → Run A

abbrev pub then_run : {A B : Type 0} → Run A → (A → M B) → Run B
then_run (done a w) k = k a w
then_run (panicked s) k = panicked s
then_run (waits ip w) k = waits ip w

infixl 5 ◌>>=◌
abbrev pub ◌>>=◌ : {A B : Type 0} (step : M A) (next : A → M B) → M B
◌>>=◌ step next w = then_run (step w) next

infixl 5 ◌>>◌
abbrev pub ◌>>◌ : {B : Type 0} (step : M (Unit {0})) (next : M B) → M B
step >> next = step >>= λ u. next

abbrev pub pure : {A : Type 0} → A → M A
pure a w = done a w

abbrev pub stop : {A : Type 0} → String → M A
stop s w = panicked s

-- bread() of a block, for its data.
unfoldable pub read_block : ℕ → M Bytes
read_block b w = done (w.blocks b) w

-- The data of a buffer is changed, and log_write() called.
unfoldable pub write_block : ℕ → Bytes → M (Unit {0})
write_block b d w = done tt (record w { blocks = update w.blocks b d; logged = b ∷ w.logged })

-- `*ip`, and an assignment to its fields.
unfoldable pub get_inode : ℕ → M Inode
get_inode ip w = done (w.icache ip) w

unfoldable pub put_inode : ℕ → Inode → M (Unit {0})
put_inode ip i w = done tt (record w { icache = update w.icache ip i })
