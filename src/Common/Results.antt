-- ===== src/Common/Results.antt =====
-- The outcome of a kernel routine: a result, a halt behind the error screen (`trigger_psod`, which
-- ends in `hcf`), an access outside an array, or a loop that has used up its fuel.
use Prim.Native.Nat.{ℕ}
use mathlib.Core.Option.{Option, none, some}

pub data Outcome {ℓ} (A : Type ℓ) : Type ℓ where
  ok : A → Outcome A
  halted : ℕ → Outcome A
  fault : Outcome A
  out_of_fuel : Outcome A

infixl 5 ◌>>=◌ ◌>>◌
abbrev pub ◌>>=◌ {ℓ κ} : {A : Type ℓ} {B : Type κ} → Outcome A → (A → Outcome B) → Outcome B
ok a >>= f = f a
halted e >>= f = halted e
fault >>= f = fault
out_of_fuel >>= f = out_of_fuel

abbrev pub ◌>>◌ {ℓ κ} : {A : Type ℓ} {B : Type κ} → Outcome A → Outcome B → Outcome B
m >> k = m >>= λ _. k

-- An array access: outside its bounds the outcome is `fault`.
abbrev pub at_index {ℓ} : {A : Type ℓ} → Option A → Outcome A
at_index none = fault
at_index (some a) = ok a
