-- ===== src/Prelude/Outcomes.antt =====
-- What a call can end with: a value, an exception of the library, or a fault of the C++ program.
use mathlib.Core.Path.{◌≡◌, refl}

-- `fits_error`, `out_of_bounds_error`, `incompatible_trits`, `keyword_exists_error` and
-- `keyword_not_found_error` are the exceptions `FitsError`, `OutOfBoundsError`,
-- `HduCategory::IncompatibleTrits`, `KeywordExistsError` and `KeywordNotFoundError`, without their
-- messages; `bad_cast` is that of a `dynamic_cast` to a reference; `undefined_behaviour` is a read or
-- a write past the end of a container.
pub data Failure : Type 0 where
  fits_error out_of_bounds_error incompatible_trits keyword_exists_error keyword_not_found_error :
      Failure
  bad_cast undefined_behaviour : Failure

pub data Outcome {ℓ} (Value : Type ℓ) : Type ℓ where
  fail : Failure → Outcome Value
  ok : Value → Outcome Value

-- A call whose result is not read, then another.
infixl 5 ◌>>◌
abbrev pub ◌>>◌ {ℓ} : {Value : Type ℓ} → Outcome (Unit {0}) → Outcome Value → Outcome Value
fail reason >> later = fail reason
ok done >> later = later

module _ {ℓ κ} {Value : Type ℓ} {Next : Type κ} where
  infixl 5 ◌>>=◌
  abbrev pub ◌>>=◌ : Outcome Value → (Value → Outcome Next) → Outcome Next
  fail reason >>= later = fail reason
  ok value >>= later = later value

  -- Two calls in a row return only if both do.
  pub >>=-ok :
      (call : Outcome Value) (later : Value → Outcome Next) {result : Next}
      → (call >>= later) ≡ ok result
      → (value : Value) × (later value ≡ ok result) × (call ≡ ok value)
  >>=-ok (fail reason) later returned = cc
  >>=-ok (ok value) later returned = (value, returned, refl)
