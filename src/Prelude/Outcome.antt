-- ===== src/Prelude/Outcome.antt =====
-- What a kernel function does: it returns, or it calls `panic` (console.c), which never returns.
use Prim.Native.String.{String}
use mathlib.Core.Path.{◌≡◌, refl}
use mathlib.Core.Bool.{Bool, true, false}

-- `panic` carries the message that the source prints.
pub data Outcome {ℓ} (A : Type ℓ) : Type ℓ where
  ok : A → Outcome A
  panic : String → Outcome A

-- `if(test) panic(message);`
abbrev pub panic_if : (test : Bool) (message : String) → Outcome (Unit {0})
panic_if false message = ok tt
panic_if true message = panic message

-- One call after another; a panic ends the run.
infixl 5 ◌>>=◌
abbrev pub ◌>>=◌ {ℓ κ} :
    {A : Type ℓ} {B : Type κ} (run : Outcome A) (rest : A → Outcome B) → Outcome B
panic message >>= rest = panic message
ok result >>= rest = rest result

infixl 5 ◌>>◌
abbrev pub ◌>>◌ {ℓ} : {B : Type ℓ} (check : Outcome (Unit {0})) (rest : Outcome B) → Outcome B
check >> rest = check >>= λ done. rest

-- A bind returns exactly when both parts do.
pub >>=-eq-ok {ℓ κ} :
    {A : Type ℓ} {B : Type κ} (run : Outcome A) (rest : A → Outcome B) {b : B}
    → (run >>= rest) ≡ ok b
    → (a : A) × (run ≡ ok a) × (rest a ≡ ok b)
>>=-eq-ok (panic message) rest h = cc
>>=-eq-ok (ok result) rest h = (result, refl, h)

pub ok-injective {ℓ} : {A : Type ℓ} (a b : A) → ok a ≡ ok b → a ≡ b
ok-injective a b h = cc
