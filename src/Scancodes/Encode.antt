-- ===== src/Scancodes/Encode.antt =====
-- ykman/scancodes/__init__.py: the layouts and `encode`. No code is above 255, so that the bytes of the
-- codes can be made.
pub mod RoundTrip
use yubikey_manager.Prelude.{ℕ, List, [], ◌∷◌}
use yubikey_manager.Core.Dict.{Dict, get}
use yubikey_manager.Core.Error.{Result, ok, value_error, from_option, ◌>>=◌}
use yubikey_manager.Core.Bytes.{Bytes}
use yubikey_manager.Core.Text.{Text}
use yubikey_manager.Scancodes.Tables.{
  modhex_scancodes, us_scancodes, uk_scancodes, de_scancodes, fr_scancodes, it_scancodes,
  bepo_scancodes, norman_scancodes,
}

-- `KEYBOARD_LAYOUT`
pub data KeyboardLayout : Type 0 where
  modhex us uk de fr it bepo norman : KeyboardLayout

unfoldable pub layout_value : KeyboardLayout → Dict ℕ
layout_value modhex = modhex_scancodes
layout_value us = us_scancodes
layout_value uk = uk_scancodes
layout_value de = de_scancodes
layout_value fr = fr_scancodes
layout_value it = it_scancodes
layout_value bepo = bepo_scancodes
layout_value norman = norman_scancodes

-- The codes of the characters, with `KeyError` turned into `ValueError`
unfoldable pub encode_loop : Dict ℕ → Text → Result Bytes
encode_loop table [] = ok []
encode_loop table (c ∷ data_) = do
  code ← from_option value_error (get table c)
  more ← encode_loop table data_
  ok (code ∷ more)

unfoldable pub encode : Text → KeyboardLayout → Result Bytes
unfolding encode_loop layout_value get
encode data_ layout = encode_loop (layout_value layout) data_
