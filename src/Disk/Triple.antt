-- ===== src/Disk/Triple.antt =====
-- Postconditions of runs: what holds of the disk after a crash, and of the machine at the end.

use large_project.Prelude.{ℕ, zero, suc, ◌<◌, ◌≡◌, refl, arith}
use large_project.Disk.{
  Block, Disk, Machine, Run, done, panicked, crashed, M, bind, bwrite, written,
}

-- A run that panics has no postcondition.
abbrev pub Holds : {A : Type 0} → Run A → (Disk → Type 0) → (A → Machine → Type 0) → Type 0
Holds (done a m) P Q = Q a m
Holds (panicked s) P Q = ⊥
Holds (crashed d) P Q = P d

pub Holds-bind :
    {A B : Type 0} (r : Run A) (f : A → M B) (P : Disk → Type 0) (Q : B → Machine → Type 0)
    → Holds r P (λ a m. Holds (f a m) P Q)
    → Holds (bind r f) P Q
Holds-bind (done a m) f P Q h = h
Holds-bind (panicked s) f P Q h = h
Holds-bind (crashed d) f P Q h = h

pub Holds-mono :
    {A : Type 0} (r : Run A) (P P' : Disk → Type 0) (Q Q' : A → Machine → Type 0)
    → ((d : Disk) → P d → P' d)
    → ((a : A) (m : Machine) → Q a m → Q' a m)
    → Holds r P Q
    → Holds r P' Q'
Holds-mono (done a m) P P' Q Q' f g h = g a m h
Holds-mono (panicked s) P P' Q Q' f g h = h
Holds-mono (crashed d) P P' Q Q' f g h = f d h

-- A write crashes before it has touched the disk, or is made.
pub bwrite-Holds :
    (b : ℕ) (v : Block) (m : Machine) (P : Disk → Type 0) (Q : Unit {0} → Machine → Type 0)
    → P m.disk
    → ((k : ℕ) → m.writes_left ≡ suc k → Q tt (written m b v k))
    → Holds (bwrite b v m) P Q
unfolding bwrite
bwrite-Holds b v m P Q p q = split m.writes_left refl
  where
    split :
        (n : ℕ)
        → m.writes_left ≡ n
        → Holds (elim n [ zero ↦ crashed m.disk | suc k ↦ done tt (written m b v k) ]) P Q
    split zero e = p
    split (suc k) e = q k e

pub bwrite-bind-Holds :
    {B : Type 0} (b : ℕ) (v : Block) (m : Machine) (f : Unit {0} → M B) (P : Disk → Type 0)
    (Q : B → Machine → Type 0)
    → P m.disk
    → ((k : ℕ) → m.writes_left ≡ suc k → Holds (f tt (written m b v k)) P Q)
    → Holds (bind (bwrite b v m) f) P Q
bwrite-bind-Holds b v m f P Q p q =
    Holds-bind (bwrite b v m) f P Q (bwrite-Holds b v m P (λ a m'. Holds (f a m') P Q) p q)

-- A write with one left does not crash.
pub bwrite-bind-ends :
    {B : Type 0} (b : ℕ) (v : Block) (m : Machine) (f : Unit {0} → M B) (P : Disk → Type 0)
    (Q : B → Machine → Type 0)
    → 0 < m.writes_left
    → ((k : ℕ) → m.writes_left ≡ suc k → Holds (f tt (written m b v k)) P Q)
    → Holds (bind (bwrite b v m) f) P Q
unfolding bwrite
bwrite-bind-ends b v m f P Q pos q = split m.writes_left refl pos
  where
    split :
        (n : ℕ)
        → m.writes_left ≡ n
        → 0 < n
        → Holds (bind (elim n [ zero ↦ crashed m.disk | suc k ↦ done tt (written m b v k) ]) f) P Q
    split zero e h = absurd (omega arith)
    split (suc k) e h = q k e

-- A run that cannot crash is done.
pub Holds-done :
    {A : Type 0} (r : Run A) (P P' : Disk → Type 0) (Q Q' : A → Machine → Type 0)
    → ((d : Disk) → P' d → ⊥)
    → Holds r P Q
    → Holds r P' Q'
    → (a : A) × (m : Machine) × (r ≡ done a m) × Q a m
Holds-done (done a m) P P' Q Q' never h h' = (a, m, refl, h)
Holds-done (panicked s) P P' Q Q' never h h' = absurd h
Holds-done (crashed d) P P' Q Q' never h h' = absurd (never d h')
