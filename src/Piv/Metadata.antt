-- ===== src/Piv/Metadata.antt =====
-- yubikit/piv.py: the metadata of PINs, keys and biometrics, as a device gives them.
use yubikey_manager.Prelude.{ℕ, Bool, not, [], ◌∷◌, ◌==◌}
use yubikey_manager.Core.Error.{Result, ok, key_error, from_option, ◌>>=◌}
use yubikey_manager.Core.Bytes.{Bytes, byte_at, bytes_eq}
use yubikey_manager.Core.Dict.{Dict, get, get_default}
use yubikey_manager.Core.Tlv.{parse_dict}
use yubikey_manager.Piv.Types.{
  KeyType, ManagementKeyType, PinPolicy, TouchPolicy, key_type, management_key_type, pin_policy,
  touch_policy,
}

pub record PinMetadata : Type 0 where
  pub default_value : Bool
  pub total_attempts : ℕ
  pub attempts_remaining : ℕ

pub record ManagementKeyMetadata : Type 0 where
  pub key_type : ManagementKeyType
  pub default_value : Bool
  pub touch_policy : TouchPolicy

pub record SlotMetadata : Type 0 where
  pub key_type : KeyType
  pub pin_policy : PinPolicy
  pub touch_policy : TouchPolicy
  pub generated : Bool
  pub public_key_encoded : Bytes

pub record BioMetadata : Type 0 where
  pub configured : Bool
  pub attempts_remaining : ℕ
  pub temporary_pin : Bool

-- `data[tag]`
abbrev pub entry : Dict Bytes → ℕ → Result Bytes
entry d tag = from_option key_error (get d tag)

-- `!= b"\0"`
abbrev pub is_not_zero : Bytes → Bool
is_not_zero b = not (bytes_eq b (0 ∷ []))

-- What `_get_pin_puk_metadata` makes of the response
unfoldable pub read_pin_metadata : Bytes → Result PinMetadata
read_pin_metadata response = do
  data_ ← parse_dict response
  attempts ← entry data_ 0x06
  is_default ← entry data_ 0x05
  total ← byte_at attempts 0
  remaining ← byte_at attempts 1
  ok (record {
    default_value = is_not_zero is_default;
    total_attempts = total;
    attempts_remaining = remaining;
  })

-- What `get_management_key_metadata` makes of it; the algorithm may be left out.
unfoldable pub read_management_key_metadata : Bytes → Result ManagementKeyMetadata
read_management_key_metadata response = do
  data_ ← parse_dict response
  policy ← entry data_ 0x02
  a ← byte_at (get_default data_ 0x01 (0x03 ∷ [])) 0
  type ← management_key_type a
  is_default ← entry data_ 0x05
  t ← byte_at policy 1
  touch ← touch_policy t
  ok (record { key_type = type; default_value = is_not_zero is_default; touch_policy = touch })

-- What `get_slot_metadata` makes of it
unfoldable pub read_slot_metadata : Bytes → Result SlotMetadata
read_slot_metadata response = do
  data_ ← parse_dict response
  policy ← entry data_ 0x02
  algo ← entry data_ 0x01
  a ← byte_at algo 0
  type ← key_type a
  p ← byte_at policy 0
  pin ← pin_policy p
  t ← byte_at policy 1
  touch ← touch_policy t
  origin ← entry data_ 0x03
  o ← byte_at origin 0
  key ← entry data_ 0x04
  ok (record {
    key_type = type;
    pin_policy = pin;
    touch_policy = touch;
    generated = o == 1;
    public_key_encoded = key;
  })

-- What `get_bio_metadata` makes of it
unfoldable pub read_bio_metadata : Bytes → Result BioMetadata
read_bio_metadata response = do
  data_ ← parse_dict response
  c ← byte_at (get_default data_ 0x07 (0 ∷ [])) 0
  retries ← entry data_ 0x06
  r ← byte_at retries 0
  t ← byte_at (get_default data_ 0x08 (0 ∷ [])) 0
  ok (record { configured = c == 1; attempts_remaining = r; temporary_pin = t == 1 })
