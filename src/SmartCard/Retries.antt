-- ===== src/SmartCard/Retries.antt =====
-- yubikit/hsmauth.py and yubikit/piv.py: `_retries_from_sw`, and the calls that raise
-- `InvalidPinError` by it.
pub mod Refused
use yubikey_manager.Prelude.{ℕ, ◌-◌, Option, none, some, bit_and, ◌==◌, if◌then◌else◌}
use yubikey_manager.Core.Error.{Error, Result, ok, err, invalid_pin, apdu_error}

-- `_retries_from_sw` of hsmauth.py; the bits of `sw & ~0xFFF0` are those that the mask leaves.
unfoldable pub retries_from_sw : ℕ → Option ℕ
retries_from_sw sw =
    let low = sw - bit_and sw 0xfff0 in if bit_and sw 0xfff0 == 0x63c0 then some low else none

-- `except ApduError as e`: a wrong PIN, password or key raises `InvalidPinError`.
unfoldable pub on_refused {ℓ} : {A : Type ℓ} → Result A → Result A
on_refused (err (Error.apdu_error resp sw)) = elim (retries_from_sw sw) [
  | none ↦ err (apdu_error resp sw)
  | some n ↦ err (invalid_pin n)
]
on_refused (ok a) = ok a
on_refused (err e) = err e
