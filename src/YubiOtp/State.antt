-- ===== src/YubiOtp/State.antt =====
-- yubikit/yubiotp.py: `SLOT`, `CFGSTATE` and `ConfigState`.
use yubikey_manager.Prelude.{ℕ, ◌+◌, ◌*◌, Bool, not, Option, [], ◌∷◌, bit_and, ◌==◌}
use yubikey_manager.Core.Error.{Result, ok, err, struct_error, ◌>>=◌, ◌>>◌}
use yubikey_manager.Core.Bytes.{Bytes, slice}
use yubikey_manager.Core.Version.{Version, require_version}

pub data SlotId : Type 0 where
  one two : SlotId

-- `SLOT.map`
abbrev pub map_slot {ℓ} : {A : Type ℓ} → SlotId → A → A → A
map_slot one a b = a
map_slot two a b = b

-- `flags` holds the bits of `CFGSTATE` alone.
pub record ConfigState : Type 0 where
  pub version : Version
  pub flags : ℕ

-- `ConfigState.__init__`: `sum(CFGSTATE) & touch_level`
unfoldable pub config_state : Version → ℕ → ConfigState
config_state v touch_level = record { version = v; flags = bit_and 0x1f touch_level }

unfoldable pub is_configured : Option Version → ConfigState → SlotId → Result Bool
is_configured override s slot = do
  require_version override s.version (2 ∷ 1 ∷ 0 ∷ [])
  ok (not (bit_and s.flags (map_slot slot 0x01 0x02) == 0))

unfoldable pub is_touch_triggered : Option Version → ConfigState → SlotId → Result Bool
is_touch_triggered override s slot = do
  require_version override s.version (3 ∷ 0 ∷ 0 ∷ [])
  ok (not (bit_and s.flags (map_slot slot 0x04 0x08) == 0))

unfoldable pub is_led_inverted : ConfigState → Bool
is_led_inverted s = not (bit_and s.flags 0x10 == 0)

-- `struct.unpack("<H", b)[0]`
unfoldable pub unpack_le16 : Bytes → Result ℕ
unpack_le16 (a ∷ b ∷ []) = ok (b * 256 + a)
unpack_le16 _ = err struct_error

-- `get_config_state`, of the last status
unfoldable pub get_config_state : Version → Bytes → Result ConfigState
get_config_state v status = do
  touch_level ← unpack_le16 (slice 4 6 status)
  ok (config_state v touch_level)
