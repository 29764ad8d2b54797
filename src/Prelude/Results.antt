-- ===== src/Prelude/Results.antt =====
-- Python's exceptions as values: a call returns or raises.
use mathlib.Core.Path.{◌≡◌, refl}
use mathlib.Core.Logic.{◌≢◌, ◌⊎◌, inl, inr}
use mathlib.Core.Bool.{Bool, true, false}

-- The exceptions that the code raises, named by their classes. `IntegrityError` is SQLite's;
-- `AttributeError` is a field of `None`.
pub data Error : Type 0 where
  value_error attribute_error : Error
  not_found transition_conflict lease_conflict integrity_error : Error

-- A call raises an error or returns a value.
pub data Result {ℓ} (A : Type ℓ) : Type ℓ where
  err : Error → Result A
  ok : A → Result A

-- `if test: raise e`
abbrev pub raise_if : Bool → Error → Result (Unit {0})
raise_if false e = ok tt
raise_if true e = err e

infixl 5 ◌>>=◌
abbrev pub ◌>>=◌ {ℓ κ} : {A : Type ℓ} {B : Type κ} → Result A → (A → Result B) → Result B
err x >>= next = err x
ok a >>= next = next a

infixl 5 ◌>>◌
abbrev pub ◌>>◌ {ℓ} : {A : Type ℓ} → Result (Unit {0}) → Result A → Result A
first >> second = first >>= λ _. second

module _ {ℓ} {A : Type ℓ} where
  -- What raises no error returns.
  pub ok_of_ne_err : (r : Result A) → ((e : Error) → r ≢ err e) → (a : A) × (r ≡ ok a)
  ok_of_ne_err (ok a) h = (a, refl)
  ok_of_ne_err (err e) h = absurd (h e refl)

  pub Result-cases : (r : Result A) → ((a : A) × (r ≡ ok a)) ⊎ ((e : Error) × (r ≡ err e))
  Result-cases (ok a) = inl (a, refl)
  Result-cases (err e) = inr (e, refl)
