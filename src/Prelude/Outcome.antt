-- ===== src/Prelude/Outcome.antt =====
-- How a call ends, and arrays whose accesses are checked.
use Prim.Native.Nat.{ℕ, ◌<◌}
use mathlib.Core.Path.{◌≡◌, refl, ap}
use mathlib.Core.Logic.{◌≢◌}
use native.Mathlib.Omega.{arith}
use scal_base.Prelude.Tests.{ltb, ◌==◌, if◌then◌else◌}

-- A value, an access outside an array, or the end of the model's fuel.
pub data Run {ℓ} (A : Type ℓ) : Type ℓ where
  ok : A → Run A
  fault out_of_fuel : Run A

infixl 5 ◌>>=◌
abbrev pub ◌>>=◌ {ℓ κ} : {A : Type ℓ} {B : Type κ} → Run A → (A → Run B) → Run B
ok a >>= f = f a
fault >>= f = fault
out_of_fuel >>= f = out_of_fuel

-- The run returns normally, with a value that satisfies `P`.
pub data Returns {ℓ κ} {A : Type ℓ} (P : A → Type κ) : Run A → Type (ℓ ⊔ κ) where
  returns : {value : A} → P value → Returns P (ok value)

module _ {ℓ κ} {A : Type ℓ} {P : A → Type κ} where
  pub Returns-ok : {value : A} → Returns P (ok value) → P value
  Returns-ok (returns proof) = proof

  pub Returns-inv : {run : Run A} → Returns P run → (value : A) × (run ≡ ok value) × P value
  Returns-inv (returns proof) = (_, refl, proof)

  pub Returns-map {κ'} :
      {Q : A → Type κ'} {run : Run A}
      → Returns P run
      → ((value : A) → P value → Q value)
      → Returns Q run
  Returns-map (returns proof) weaken = returns (weaken _ proof)

pub ok-inj {ℓ} : {A : Type ℓ} {a b : A} → ok a ≡ ok b → a ≡ b
ok-inj {a = a} e = ap (λ r. elim r [ ok x ↦ x | fault ↦ a | out_of_fuel ↦ a ]) e

-- The cells behind a pointer. An access goes through `load` or a test of its index.
module _ {ℓ} {A : Type ℓ} where
  abbrev pub load : (ℕ → A) → ℕ → ℕ → Run A
  load cells size i = if ltb i size then ok (cells i) else fault

  abbrev pub update : (ℕ → A) → ℕ → A → ℕ → A
  update cells i a j = if i == j then a else cells j

  pub load-ok : (cells : ℕ → A) (size i : ℕ) → i < size → load cells size i ≡ ok (cells i)
  load-ok cells size i h = ground arith

  pub update_self : (cells : ℕ → A) (i : ℕ) (a : A) → update cells i a i ≡ a
  update_self cells i a = ground arith

  pub update_ne : (cells : ℕ → A) (i : ℕ) (a : A) (j : ℕ) → i ≢ j → update cells i a j ≡ cells j
  update_ne cells i a j h = ground arith
