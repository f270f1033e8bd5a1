-- ===== src/Management/Config.antt =====
-- yubikit/management.py: `DeviceConfig`.
pub mod Written
use yubikey_manager.Prelude.{
  ℕ, ◌+◌, Bool, true, false, not, Option, none, some, List, [], ◌∷◌, ◌++◌, ltb, ◌==◌, if◌then◌else◌,
  length,
}
use yubikey_manager.Core.Error.{Result, ok, err, not_supported, require, ◌>>=◌, ◌>>◌}
use yubikey_manager.Core.Bytes.{Bytes, int2bytes}
use yubikey_manager.Core.Tlv.{Tlv, new}

-- A mapping from the transports to capabilities.
pub record Capabilities : Type 0 where
  pub usb : Option ℕ
  pub nfc : Option ℕ

pub record DeviceConfig : Type 0 where
  pub enabled_capabilities : Capabilities
  pub auto_eject_timeout : Option ℕ
  pub challenge_response_timeout : Option ℕ
  pub device_flags : Option ℕ
  pub nfc_restricted : Option Bool

-- `DeviceConfig()`
abbrev pub default_config : DeviceConfig
default_config = record {
  enabled_capabilities = record { usb = none; nfc = none };
  auto_eject_timeout = none;
  challenge_response_timeout = none;
  device_flags = none;
  nfc_restricted = none;
}

-- What `Tlv(tag, value)` adds to the buffer, where there is a value.
unfoldable pub field : ℕ → Option Bytes → Result Bytes
field tag none = ok []
field tag (some v) = do t ← new tag v; ok t.bytes

-- `if code:`, which an empty string fails as `None` does
abbrev pub if_code : Option Bytes → Option Bytes
if_code none = none
if_code (some c) = if length c == 0 then none else some c

abbrev pub as_int : ℕ → Option ℕ → Option Bytes
as_int min_len none = none
as_int min_len (some n) = some (int2bytes n min_len)

-- `if flag:`, for a flag that may be `None`
abbrev pub if_true : Option Bool → Bytes → Option Bytes
if_true (some true) v = some v
if_true _ v = none

-- `get_bytes`
unfoldable pub get_bytes : DeviceConfig → Bool → Option Bytes → Option Bytes → Result Bytes
get_bytes config reboot cur_lock_code new_lock_code = do
  b1 ← field 0x0c (if reboot then some [] else none)
  b2 ← field 0x0b (if_code cur_lock_code)
  b3 ← field 0x03 (as_int 2 config.enabled_capabilities.usb)
  b4 ← field 0x0e (as_int 2 config.enabled_capabilities.nfc)
  b5 ← field 0x06 (as_int 2 config.auto_eject_timeout)
  b6 ← field 0x07 (as_int 0 config.challenge_response_timeout)
  b7 ← field 0x08 (as_int 0 config.device_flags)
  b8 ← field 0x0a (if_code new_lock_code)
  b9 ← field 0x17 (if_true config.nfc_restricted (1 ∷ []))
  let buf = b1 ++ (b2 ++ (b3 ++ (b4 ++ (b5 ++ (b6 ++ (b7 ++ (b8 ++ b9)))))))
  require (not (ltb 0xff (length buf))) not_supported
  ok (int2bytes (length buf) 0 ++ buf)
