-- ===== src/Oath/Data.antt =====
-- yubikit/oath.py: what `OathSession` sends, and what it reads in the answers.
use yubikey_manager.Prelude.{
  ℕ, Bool, true, false, Option, none, some, List, [], ◌∷◌, ◌++◌, bit_and, bit_or, ltb, ◌==◌,
  if◌then◌else◌, length, take, drop,
}
use yubikey_manager.Core.Error.{Result, ok, err, key_error, type_error, from_option, ◌>>=◌}
use yubikey_manager.Core.Bytes.{Bytes, byte_at, ljust, pack_b, pack_be32}
use yubikey_manager.Core.Dict.{get}
use yubikey_manager.Core.Text.{Text}
use yubikey_manager.Core.Version.{Version, from_bytes}
use yubikey_manager.Core.Tlv.{Tlv, encoded, parse_dict, unpack}
use yubikey_manager.Oath.Credential.{
  HashAlgorithm, sha1, sha256, sha512, algorithm_code, type_code, oath_type, CredentialData,
  Credential, parse_cred_id,
}

-- What the session takes from hashlib, hmac, base64, os and time. `device_name` is the text that
-- base64 makes of a hash; `decimal` is the value of a decimal character.
pub record Outside (D : Type 0) : Type 0 where
  pub hmac_sha1 : Bytes → Bytes → Bytes
  pub pbkdf2_hmac : Bytes → Bytes → Bytes
  pub digest : HashAlgorithm → Bytes → Bytes
  pub base64 : Bytes → Text
  pub decimal : ℕ → Option ℕ
  pub urandom : ℕ → D → Bytes × D
  pub time : D → ℕ × D

-- `_parse_select`: the version, the salt and the challenge
unfoldable pub parse_select : Bytes → Result (Version × Option Bytes × Option Bytes)
parse_select response = do
  data_ ← parse_dict response
  v ← from_option key_error (get data_ 0x79)
  version ← from_bytes v
  ok (version, get data_ 0x71, get data_ 0x74)

abbrev pub block_size : HashAlgorithm → ℕ
block_size sha1 = 64
block_size sha256 = 64
block_size sha512 = 128

-- A field that a credential may have.
abbrev pub field_if : Bool → Result Bytes → Result Bytes
field_if true b = b
field_if false b = ok []

module _ {D : Type 0} (outside : Outside D) where
  -- `_get_device_id`
  unfoldable pub get_device_id : Option Bytes → Result Text
  get_device_id none = err type_error
  get_device_id (some salt) =
      ok (drop_padding (outside.base64 (take 16 (outside.digest sha256 salt))))
    where
      drop_padding : Text → Text
      drop_padding [] = []
      drop_padding (c ∷ cs) = let rest = drop_padding cs in if c == 61 then rest else c ∷ rest

  -- `_hmac_shorten_key`
  unfoldable pub hmac_shorten_key : Bytes → HashAlgorithm → Bytes
  hmac_shorten_key key algo =
      if ltb (block_size algo) (length key) then outside.digest algo key else key

  -- The data of `put_credential`
  unfoldable pub credential_fields : CredentialData → Bool → Bytes → Result Bytes
  credential_fields d touch_required cred_id = do
    let secret = ljust 14 0 (hmac_shorten_key d.secret d.hash_algorithm)
    b1 ← encoded 0x71 cred_id
    t ← pack_b (bit_or (type_code d.oath_type) (algorithm_code d.hash_algorithm))
    n ← pack_b d.digits
    b2 ← encoded 0x73 (t ++ (n ++ secret))
    b3 ← field_if touch_required (ok (0x78 ∷ 0x02 ∷ []))
    b4 ← field_if (ltb 0 d.counter) (do c ← pack_be32 d.counter; encoded 0x7a c)
    ok (b1 ++ (b2 ++ (b3 ++ b4)))

  -- A credential in the list.
  unfoldable pub listed : Text → Tlv → Result Credential
  listed device_id t = do
    data_ ← unpack 0x72 t.bytes
    b ← byte_at data_ 0
    type ← oath_type (bit_and 0xf0 b)
    (issuer, name, period) ← parse_cred_id outside.decimal (drop 1 data_) type
    ok (record {
      device_id = device_id;
      id = drop 1 data_;
      issuer = issuer;
      name = name;
      oath_type = type;
      period = period;
      touch_required = none;
    })

  unfoldable pub listed_all : Text → List Tlv → Result (List Credential)
  listed_all device_id [] = ok []
  listed_all device_id (t ∷ ts) = do
    c ← listed device_id t
    cs ← listed_all device_id ts
    ok (c ∷ cs)
