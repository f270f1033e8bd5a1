-- ===== src/Piv/Pin.antt =====
-- yubikit/piv.py: `_pin_bytes` and `_retries_from_sw`.
pub mod Bounds
use yubikey_manager.Prelude.{
  ℕ, Bool, true, false, Option, none, some, bit_and, ltb, ◌==◌, if◌then◌else◌, length,
}
use yubikey_manager.Core.Error.{Result, ok, err, value_error, ◌>>=◌}
use yubikey_manager.Core.Bytes.{Bytes, ljust}
use yubikey_manager.Core.Text.{Text, encode}

-- `_pin_bytes`
unfoldable pub pin_bytes : Text → Result Bytes
pin_bytes pin = do b ← encode pin; if ltb 8 (length b) then err value_error else ok (ljust 8 0xff b)

-- `_retries_from_sw`
unfoldable pub retries_from_sw : ℕ → Option ℕ
retries_from_sw sw =
    if sw == 0x6983
    then some 0
    else if bit_and sw 0xfff0 == 0x63c0
    then some (bit_and sw 0x0f)
    else if bit_and sw 0xff00 == 0x6300
    then some (bit_and sw 0xff)
    else none
