-- ===== src/Common/Outcomes.antt =====
-- What the result of an outcome satisfies, and where an outcome may have no result.
use Prim.Native.Nat.{ℕ, ◌≤◌}
use mathlib.Core.Path.{◌≡◌, refl, sym, subst}
use mathlib.Core.Logic.{inl, inr}
use mathlib.Core.Bool.{Bool, true, false}
use mathlib.Core.Option.{some}
use mathlib.Core.List.{List}
use native.Mathlib.Omega.{arith}
use h0r_net.Common.Tests.{if◌then◌else◌, Bool-cases, ltb, ltb→lt}
use h0r_net.Common.Lists.{length, get_elem?, get_elem?-lt, get_elem?-ge}
use h0r_net.Common.Results.{Outcome, ok, halted, fault, out_of_fuel, ◌>>=◌, at_index}

abbrev Holds {ℓ} : {A : Type ℓ} → Type 0 → (A → Type 0) → Outcome A → Type 0
Holds D P (ok a) = P a
Holds D P (halted e) = D
Holds D P fault = D
Holds D P out_of_fuel = D

-- A result satisfies `P`, and without one `D` holds: with an empty `D` there is a result.
pub record Yields {ℓ} {A : Type ℓ} (D : Type 0) (P : A → Type 0) (o : Outcome A) : Type 0 where
  pub holds : Holds D P o

module _ {ℓ} {A : Type ℓ} {D : Type 0} where
  pub result : {P : A → Type 0} {a : A} → P a → Yields D P (ok a)
  result p = record { holds = p }

  pub Yields-ok : {P : A → Type 0} {o : Outcome A} {a : A} → Yields D P o → o ≡ ok a → P a
  Yields-ok {P} y e = subst (Holds D P) e y.holds

  -- Where there is a result, it does not matter where there would be none.
  pub Yields-known :
      {E : Type 0} {P : A → Type 0} {o : Outcome A} {a : A} → o ≡ ok a → Yields E P o → Yields D P o
  Yields-known {E} {P} {o} {a} e y =
      subst (Yields D P) (sym e) (record { holds = subst (Holds E P) e y.holds })

  pub Yields-map :
      {P Q : A → Type 0} (o : Outcome A) → Yields D P o → ((a : A) → P a → Q a) → Yields D Q o
  Yields-map (ok a) y f = record { holds = f a y.holds }
  Yields-map (halted e) y f = record { holds = y.holds }
  Yields-map fault y f = record { holds = y.holds }
  Yields-map out_of_fuel y f = record { holds = y.holds }

  pub Yields-if :
      {P : A → Type 0} (b : Bool) {x y : Outcome A}
      → (b ≡ true → Yields D P x)
      → (b ≡ false → Yields D P y)
      → Yields D P (if b then x else y)
  Yields-if true f g = f refl
  Yields-if false f g = g refl

  pub Yields-at_index :
      {P : A → Type 0} (xs : List A) (i : ℕ)
      → (length xs ≤ i → D)
      → ((a : A) → get_elem? xs i ≡ some a → P a)
      → Yields D P (at_index (get_elem? xs i))
  Yields-at_index xs i out f = elim (Bool-cases (ltb i (length xs))) [
    | inl lt ↦
        (let (a, at) = get_elem?-lt xs i (ltb→lt i (length xs) lt) in
          rw at (record { holds = f a at }))
    | inr ge ↦ rw (get_elem?-ge xs i (ground arith)) (record { holds = out (ground arith) })
  ]

pub Yields-result {ℓ} :
    {A : Type ℓ} {P : A → Type 0} (o : Outcome A) → Yields ⊥ P o → (a : A) × (o ≡ ok a) × P a
Yields-result (ok a) y = (a, refl, y.holds)
Yields-result (halted e) y = absurd y.holds
Yields-result fault y = absurd y.holds
Yields-result out_of_fuel y = absurd y.holds

pub Yields->>= {ℓ κ} :
    {A : Type ℓ} {B : Type κ} {D : Type 0} {P : A → Type 0} {Q : B → Type 0} (o : Outcome A)
    {f : A → Outcome B}
    → Yields D P o
    → ((a : A) → P a → Yields D Q (f a))
    → Yields D Q (o >>= f)
Yields->>= (ok a) y f = f a y.holds
Yields->>= (halted e) y f = record { holds = y.holds }
Yields->>= fault y f = record { holds = y.holds }
Yields->>= out_of_fuel y f = record { holds = y.holds }
