-- ===== src/Core/Error.antt =====
-- The exceptions of yubikit/core and of Python that the modelled code raises. Messages are left
-- out. `out_of_fuel` is no exception of the program: a loop on fuel returns it when the fuel is
-- gone, and theorems show where that cannot happen.
use yubikey_manager.Prelude.{
  ℕ, ◌≡◌, refl, ◌⊎◌, inl, inr, Bool, true, false, List, Option, none, some,
}

pub data Error : Type 0 where
  value_error type_error index_error key_error overflow_error struct_error : Error
  decode_error encode_error assertion_error zero_division_error recursion_error : Error
  not_supported bad_response timeout app_not_available command_rejected io_error : Error
  apdu_error : List ℕ → ℕ → Error
  invalid_pin : ℕ → Error
  out_of_fuel : Error

infixl 5 ◌>>=◌ ◌>>◌
-- What a call returns, or the exception that it raises.
pub data Result {ℓ} (Value : Type ℓ) : Type ℓ where
  ok : Value → Result Value
  err : Error → Result Value

-- `if not test: raise e`
abbrev pub require : Bool → Error → Result (Unit {0})
require true e = ok tt
require false e = err e

-- One call after the other: an exception of the first is that of both.
abbrev pub ◌>>=◌ {ℓ κ} :
    {Value : Type ℓ} {Next : Type κ} → Result Value → (Value → Result Next) → Result Next
◌>>=◌ (err e) next = err e
◌>>=◌ (ok value) next = next value

abbrev pub ◌>>◌ {ℓ} : {Next : Type ℓ} → Result (Unit {0}) → Result Next → Result Next
first >> second = first >>= λ _. second

-- A dictionary's `d[k]`, an `x` that must not be `None`.
abbrev pub from_option {ℓ} : {A : Type ℓ} → Error → Option A → Result A
from_option e none = err e
from_option e (some a) = ok a

-- `except IndexError: raise ValueError`
abbrev pub catch_index {ℓ} : {A : Type ℓ} → Result A → Result A
catch_index (ok a) = ok a
catch_index (err Error.index_error) = err value_error
catch_index (err e) = err e

pub Result-cases {ℓ} :
    {A : Type ℓ} (r : Result A) → ((a : A) × (r ≡ ok a)) ⊎ ((e : Error) × (r ≡ err e))
Result-cases (ok a) = inl (a, refl)
Result-cases (err e) = inr (e, refl)
