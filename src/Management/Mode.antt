-- ===== src/Management/Mode.antt =====
-- yubikit/management.py: `Mode`, the USB modes of a NEO and a YubiKey 4.
use yubikey_manager.Prelude.{
  ℕ, ◌+◌, ◌≡◌, arith, none, some, List, [], ◌∷◌, bit_and, ◌==◌, if◌then◌else◌, get_elem?,
}
use yubikey_manager.Prelude.{◌%◌}
use yubikey_manager.Prelude.Bits.{mask_7}
use yubikey_manager.Core.Error.{Result, ok, err, value_error, ◌>>=◌}

-- `_MODES`: OTP is 1, FIDO 2, CCID 4.
abbrev pub modes : List ℕ
modes = 1 ∷ 4 ∷ 5 ∷ 2 ∷ 3 ∷ 6 ∷ 7 ∷ []

pub record Mode : Type 0 where
  pub code : ℕ
  pub interfaces : ℕ

-- `list.index`, from a position on
unfoldable pub index_from : ℕ → List ℕ → ℕ → Result ℕ
index_from i [] x = err value_error
index_from i (y ∷ ys) x = let rest = index_from (i + 1) ys x in if y == x then ok i else rest

-- `Mode.__init__`
unfoldable pub new_mode : ℕ → Result Mode
new_mode interfaces = do
  code ← index_from 0 modes interfaces
  ok (record { code = code; interfaces = interfaces })

-- `Mode.from_code`
unfoldable pub mode_from_code : ℕ → Result Mode
mode_from_code code = elim (get_elem? modes (bit_and code 0b00000111)) [
  | none ↦ err value_error
  | some interfaces ↦ new_mode interfaces
]

-- A mode that could be made is read back by `from_code` from every code whose lowest three bits
-- are the mode's.
pub mode_from_code-new_mode :
    (interfaces code : ℕ) (m : Mode)
    → new_mode interfaces ≡ ok m
    → code % 8 ≡ m.code
    → mode_from_code code ≡ ok m
unfolding mode_from_code new_mode index_from
mode_from_code-new_mode interfaces code m made low =
    rw (mask_7 code, mode_from_code) (rw low (ground (arith, made)))
