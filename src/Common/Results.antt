-- ===== src/Common/Results.antt =====
-- The result of code that may read or write out of bounds, and of a model that may lack fuel.
use mathlib.Core.Path.{◌≡◌, refl}
use mathlib.Core.Option.{Option, none, some}

pub data Run {ℓ} (A : Type ℓ) : Type ℓ where
  ok : A → Run A
  fault out_of_fuel : Run A

infixl 5 ◌>>=◌
abbrev pub ◌>>=◌ {ℓ κ} : {A : Type ℓ} {B : Type κ} → Run A → (A → Run B) → Run B
ok a >>= f = f a
fault >>= f = fault
out_of_fuel >>= f = out_of_fuel

-- An access at an index that is `none` for -1, or to an element that may not be there.
abbrev pub access {ℓ} : {A : Type ℓ} → Option A → Run A
access none = fault
access (some a) = ok a

module _ {ℓ κ} {A : Type ℓ} {B : Type κ} where
  -- A chain that succeeds has a first part that succeeds.
  pub >>=-eq-ok :
      (first : Run A) (rest : A → Run B) {result : B}
      → (first >>= rest) ≡ ok result
      → (a : A) × (first ≡ ok a) × (rest a ≡ ok result)
  >>=-eq-ok (ok a) rest chain = (a, refl, chain)
  >>=-eq-ok fault rest chain = cc
  >>=-eq-ok out_of_fuel rest chain = cc
