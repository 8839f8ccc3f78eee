-- ===== src/Generator/Outcome.antt =====
-- How a part of the generator ends.
use schemaless_benchmarks.Base.{◌≢◌, Option, none, some}

-- `fault` is a division by zero or a recursion deeper than its fuel; `stuck` is the loop for an unused
-- key after more rounds than the model allows it. Neither has a counterpart in the code.
pub data Outcome {ℓ} (A : Type ℓ) : Type ℓ where
  ok : A → Outcome A
  fault stuck : Outcome A

infixl 5 ◌>>=◌
abbrev pub ◌>>=◌ {ℓ κ} : {A : Type ℓ} {B : Type κ} → Outcome A → (A → Outcome B) → Outcome B
ok a >>= f = f a
fault >>= f = fault
stuck >>= f = stuck

-- `none` is a division by zero.
abbrev pub checked {ℓ} : {A : Type ℓ} → Option A → Outcome A
checked none = fault
checked (some a) = ok a

-- No fault, and `P` holds of the value if there is one.
pub data Ensures {ℓ κ} {A : Type ℓ} (P : A → Type κ) : Outcome A → Type (ℓ ⊔ κ) where
  holds : {a : A} → P a → Ensures P (ok a)
  gave_up : Ensures P stuck

pub Ensures-bind {ℓ κ ℓ' κ'} :
    {A : Type ℓ} {P : A → Type κ} {B : Type ℓ'} {Q : B → Type κ'} {m : Outcome A}
    {f : A → Outcome B}
    → Ensures P m
    → ((a : A) → P a → Ensures Q (f a))
    → Ensures Q (m >>= f)
Ensures-bind (holds {a} h) k = k a h
Ensures-bind gave_up k = gave_up

pub Ensures-ne-fault {ℓ κ} : {A : Type ℓ} {P : A → Type κ} {m : Outcome A} → Ensures P m → m ≢ fault
Ensures-ne-fault (holds h) = cc
Ensures-ne-fault gave_up = cc
