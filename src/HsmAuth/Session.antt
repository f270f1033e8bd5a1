-- ===== src/HsmAuth/Session.antt =====
-- yubikit/hsmauth.py: `HsmAuthSession`.
use yubikey_manager.Prelude.{
  ℕ, Bool, ◌&&◌, ◌||◌, Option, none, some, List, [], ◌∷◌, ◌++◌, ◌==◌, if◌then◌else◌, length, take,
  drop,
}
use yubikey_manager.Core.Error.{Result, value_error}
use yubikey_manager.Core.Io.{Io, pure, raise, lift, ◌>>=◌, ◌>>◌}
use yubikey_manager.Core.Bytes.{Bytes, bytes2int, int2bytes}
use yubikey_manager.Core.Text.{Text, encode}
use yubikey_manager.Core.Version.{Version, is_since, require_version}
use yubikey_manager.Core.Tlv.{encoded, parse_list}
use yubikey_manager.SmartCard.Application.{Application}
use yubikey_manager.SmartCard.Retries.{on_refused}
use yubikey_manager.HsmAuth.Data.{
  Algorithm, aes128_yubico_authentication, ec_p256_yubico_authentication, Password, parse_label,
  parse_select, Credential, SessionKeys, parse_keys, listed_all, credential_fields, key_and,
  context_fields, PublicKey, point_bytes, challenge_fields,
}

abbrev pub aid : Bytes
aid = 0xa0 ∷ 0 ∷ 0 ∷ 5 ∷ 0x27 ∷ 0x21 ∷ 7 ∷ 1 ∷ []

-- A private key: whether its curve is P-256, and its value.
pub record PrivateKey : Type 0 where
  pub is_p256 : Bool
  pub private_value : ℕ

abbrev pub has_length : ℕ → Bytes → Bool
has_length n b = length b == n

-- `__init__`: the version of the session
unfoldable pub new_session : {D : Type 0} → Application D → Bool → Io D Version
new_session app uses_scp = do
  response ← app.select aid
  version ← lift (parse_select response)
  if uses_scp then app.init_scp else pure tt
  app.configure version
  pure version

-- The attribute `_version` never changes; `override` is the version that replaces a development
-- device's.
module _ {D : Type 0} (override : Option Version) (app : Application D) (version : Version) where
  -- `send_apdu` in a `try` block that raises `InvalidPinError`
  unfoldable pub send_guarded : ℕ → Bytes → Io D Bytes
  send_guarded ins body d = let (r, e) = app.send_apdu 0 ins 0 0 body d in (on_refused r, e)

  unfoldable pub reset : Io D Unit
  reset = do _ ← app.send_apdu 0 0x06 0xde 0xad []; pure tt

  unfoldable pub list_credentials : Io D (List Credential)
  list_credentials = do
    response ← app.send_apdu 0 0x05 0 0 []
    ts ← lift (parse_list response)
    lift (listed_all ts)

  -- `_put_credential`
  unfoldable pub put_credential :
      Bytes → Text → Bytes → Algorithm → Password → Bool → Io D Credential
  put_credential management_key label key algorithm credential_password touch_required = do
    if has_length 16 management_key then pure tt else raise value_error
    data_ ←
        lift
          (credential_fields management_key label key algorithm credential_password touch_required)
    _ ← send_guarded 0x01 data_
    pure (record {
      label = label;
      algorithm = algorithm;
      counter = 8;
      touch_required = touch_required;
    })

  unfoldable pub put_credential_symmetric :
      Bytes → Text → Bytes → Bytes → Password → Bool → Io D Credential
  put_credential_symmetric management_key label key_enc key_mac credential_password touch_required =
      do
        if has_length 16 key_enc && has_length 16 key_mac then pure tt else raise value_error
        put_credential management_key label (key_enc ++ key_mac) aes128_yubico_authentication
            credential_password touch_required

  -- `pbkdf2` is the derivation of 32 bytes that `_password_to_key` asks for.
  unfoldable pub put_credential_derived :
      (Bytes → Bytes) → Bytes → Text → Text → Password → Bool → Io D Credential
  put_credential_derived pbkdf2 management_key label derivation_password credential_password
        touch_required =
      do
        pw_bytes ← lift (encode derivation_password)
        put_credential_symmetric management_key label (take 16 (pbkdf2 pw_bytes))
            (drop 16 (pbkdf2 pw_bytes)) credential_password touch_required

  unfoldable pub put_credential_asymmetric :
      Bytes → Text → PrivateKey → Password → Bool → Io D Credential
  put_credential_asymmetric management_key label private_key credential_password touch_required = do
    lift (require_version override version (5 ∷ 6 ∷ 0 ∷ []))
    if private_key.is_p256 then pure tt else raise value_error
    put_credential management_key label (int2bytes private_key.private_value 32)
        ec_p256_yubico_authentication credential_password touch_required

  unfoldable pub generate_credential_asymmetric : Bytes → Text → Password → Bool → Io D Credential
  generate_credential_asymmetric management_key label credential_password touch_required = do
    lift (require_version override version (5 ∷ 6 ∷ 0 ∷ []))
    put_credential management_key label [] ec_p256_yubico_authentication credential_password
        touch_required

  -- `from_encoded_point` is that of the cryptography package.
  unfoldable pub get_public_key : (Bytes → Result PublicKey) → Text → Io D PublicKey
  get_public_key from_encoded_point label = do
    lift (require_version override version (5 ∷ 6 ∷ 0 ∷ []))
    l ← lift (parse_label label)
    data_ ← lift (encoded 0x71 l)
    res ← app.send_apdu 0 0x0a 0 0 data_
    lift (from_encoded_point res)

  unfoldable pub delete_credential : Bytes → Text → Io D Unit
  delete_credential management_key label = do
    if has_length 16 management_key then pure tt else raise value_error
    l ← lift (parse_label label)
    data_ ← lift (key_and management_key 0x71 l)
    _ ← send_guarded 0x02 data_
    pure tt

  unfoldable pub put_management_key : Bytes → Bytes → Io D Unit
  put_management_key management_key new_management_key = do
    if has_length 16 management_key && has_length 16 new_management_key
        then pure tt
        else raise value_error
    data_ ← lift (key_and management_key 0x7b new_management_key)
    _ ← send_guarded 0x08 data_
    pure tt

  unfoldable pub get_management_key_retries : Io D ℕ
  get_management_key_retries = do res ← app.send_apdu 0 0x09 0 0 []; pure (bytes2int res)

  -- `_calculate_session_keys`
  unfoldable pub calculate_session_keys :
      Text → Bytes → Password → Option Bytes → Option Bytes → Io D Bytes
  calculate_session_keys label context credential_password card_crypto public_key = do
    data_ ← lift (context_fields label context credential_password card_crypto public_key)
    send_guarded 0x03 data_

  unfoldable pub calculate_session_keys_symmetric :
      Text → Bytes → Password → Option Bytes → Io D SessionKeys
  calculate_session_keys_symmetric label context credential_password card_crypto = do
    res ← calculate_session_keys label context credential_password card_crypto none
    pure (parse_keys res)

  unfoldable pub calculate_session_keys_asymmetric :
      Text → Bytes → PublicKey → Password → Bytes → Io D SessionKeys
  calculate_session_keys_asymmetric label context public_key credential_password card_crypto = do
    lift (require_version override version (5 ∷ 6 ∷ 0 ∷ []))
    if public_key.is_p256 then pure tt else raise value_error
    point ← lift (point_bytes public_key)
    res ← calculate_session_keys label context credential_password (some card_crypto) (some point)
    pure (parse_keys res)

  unfoldable pub get_challenge : Text → Option Password → Io D Bytes
  get_challenge label credential_password = do
    lift (require_version override version (5 ∷ 6 ∷ 0 ∷ []))
    data_ ← lift (
        challenge_fields (is_since version (5 ∷ 7 ∷ 1 ∷ []) || version.major == 0) label
          credential_password)
    app.send_apdu 0 0x04 0 0 data_
