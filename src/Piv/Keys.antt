-- ===== src/Piv/Keys.antt =====
-- yubikit/piv.py: the keys of `PivSession`. These operations change the device alone, so their state
-- is that of the world.
use yubikey_manager.Prelude.{
  ℕ, ◌*◌, ◌/◌, Bool, true, false, Option, [], ◌∷◌, ◌++◌, if◌then◌else◌, length,
}
use yubikey_manager.Core.Error.{Result, value_error}
use yubikey_manager.Core.Io.{Io, pure, raise, lift, ◌>>=◌, ◌>>◌}
use yubikey_manager.Core.Bytes.{Bytes, int2bytes}
use yubikey_manager.Core.Version.{Version, require_version}
use yubikey_manager.Core.Tlv.{encoded, unpack_inner, unpack}
use yubikey_manager.SmartCard.Application.{Application}
use yubikey_manager.Piv.Types.{
  KeyType, key_type_code, is_rsa, bit_len, Slot, slot_code, PinPolicy, pin_policy_code, TouchPolicy,
  touch_policy_code,
}
use yubikey_manager.Piv.KeyData.{
  KeyKind, rsa_type, from_public_key, PrivateKey, kind_of, key_fields, policy_field, DeviceKey,
  parse_device_public_key, pad_message,
}

-- `check` is `check_key_support` of the session, with the flag for the generation of a key.
module _ {D : Type 0} (override : Option Version) (version : Version) (app : Application D)
    (check : KeyType → PinPolicy → TouchPolicy → Bool → Io D Unit) where
  unfoldable pub put_key : Slot → PrivateKey → PinPolicy → TouchPolicy → Io D KeyType
  put_key slot private_key pin_policy touch_policy = do
    type ← lift (from_public_key (kind_of private_key))
    check type pin_policy touch_policy false
    fields ← lift (key_fields (bit_len type / 8) private_key)
    pin ← lift (policy_field 0xaa (pin_policy_code pin_policy))
    touch ← lift (policy_field 0xab (touch_policy_code touch_policy))
    _ ← app.send_apdu 0 0xfe (key_type_code type) (slot_code slot) (fields ++ (pin ++ touch))
    pure type

  unfoldable pub generate_key : Slot → KeyType → PinPolicy → TouchPolicy → Io D DeviceKey
  generate_key slot type pin_policy touch_policy = do
    check type pin_policy touch_policy true
    algorithm ← lift (encoded 0x80 (int2bytes (key_type_code type) 0))
    pin ← lift (policy_field 0xaa (pin_policy_code pin_policy))
    touch ← lift (policy_field 0xab (touch_policy_code touch_policy))
    request ← lift (encoded 0xac (algorithm ++ (pin ++ touch)))
    response ← app.send_apdu 0 0x47 0 (slot_code slot) request
    key ← lift (unpack 0x7f49 response)
    lift (parse_device_public_key type key)

  -- The bytes of the certificate.
  unfoldable pub attest_key : Slot → Io D Bytes
  attest_key slot = do
    lift (require_version override version (4 ∷ 3 ∷ 0 ∷ []))
    app.send_apdu 0 0xf9 (slot_code slot) 0 []

  unfoldable pub move_key : Slot → Slot → Io D Unit
  move_key from_slot to_slot = do
    lift (require_version override version (5 ∷ 7 ∷ 0 ∷ []))
    _ ← app.send_apdu 0 0xf6 (slot_code to_slot) (slot_code from_slot) []
    pure tt

  unfoldable pub delete_key : Slot → Io D Unit
  delete_key slot = do
    lift (require_version override version (5 ∷ 7 ∷ 0 ∷ []))
    _ ← app.send_apdu 0 0xf6 0xff (slot_code slot) []
    pure tt

  -- `_use_private_key`
  unfoldable pub use_private_key : Slot → KeyType → Bytes → Bool → Io D Bytes
  use_private_key slot type message exponentiation = do
    empty ← lift (encoded 0x82 [])
    m ← lift (encoded (if exponentiation then 0x85 else 0x81) message)
    request ← lift (encoded 0x7c (empty ++ m))
    response ← app.send_apdu 0 0x87 (key_type_code type) (slot_code slot) request
    lift (unpack_inner 0x7c 0x82 response)

  unfoldable pub sign : (ℕ → Result Bytes) → Bytes → Slot → KeyType → Bytes → Io D Bytes
  sign rsa_padded hashed slot type message = do
    padded ← lift (pad_message rsa_padded hashed message type)
    use_private_key slot type padded false

  -- `unpad` is `_unpad_message`.
  unfoldable pub decrypt : (Bytes → Result Bytes) → Slot → Bytes → Io D Bytes
  decrypt unpad slot cipher_text = do
    type ← lift (rsa_type (length cipher_text * 8))
    padded ← use_private_key slot type cipher_text false
    lift (unpad padded)

  -- The peer's key, and its bytes in the encoding for its type.
  unfoldable pub calculate_secret : Slot → KeyKind → Bytes → Io D Bytes
  calculate_secret slot peer data_ = do
    type ← lift (from_public_key peer)
    if is_rsa type then raise value_error else use_private_key slot type data_ true
