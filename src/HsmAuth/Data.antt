-- ===== src/HsmAuth/Data.antt =====
-- yubikit/hsmauth.py: labels, passwords, credentials and session keys.
use yubikey_manager.Prelude.{
  ℕ, ◌+◌, ◌-◌, Bool, not, ◌||◌, Option, none, some, List, [], ◌∷◌, ◌++◌, ltb, ◌==◌, if◌then◌else◌,
  length, take, drop, reverse,
}
use yubikey_manager.Core.Error.{Result, ok, err, value_error, overflow_error, ◌>>=◌}
use yubikey_manager.Core.Bytes.{Bytes, byte_at, slice, int2bytes, ljust}
use yubikey_manager.Core.Text.{Text, encode, decode}
use yubikey_manager.Core.Version.{Version, from_bytes}
use yubikey_manager.Core.Tlv.{Tlv, encoded, unpack}

pub data Algorithm : Type 0 where
  aes128_yubico_authentication ec_p256_yubico_authentication : Algorithm

unfoldable pub algorithm_code : Algorithm → ℕ
algorithm_code aes128_yubico_authentication = 38
algorithm_code ec_p256_yubico_authentication = 39

-- `ALGORITHM(x)`
unfoldable pub algorithm : ℕ → Result Algorithm
algorithm x =
    if x == 38
    then ok aes128_yubico_authentication
    else if x == 39
    then ok ec_p256_yubico_authentication
    else err value_error

abbrev pub key_len : Algorithm → ℕ
key_len aes128_yubico_authentication = 16
key_len ec_p256_yubico_authentication = 32

pub data Password : Type 0 where
  text : Text → Password
  raw : Bytes → Password

abbrev pub password_bytes : Password → Result Bytes
password_bytes (text s) = do b ← encode s; ok (ljust 16 0 b)
password_bytes (raw b) = ok b

-- `_parse_credential_password`
unfoldable pub parse_credential_password : Password → Result Bytes
parse_credential_password p = do
  pw ← password_bytes p
  if length pw == 16 then ok pw else err value_error

abbrev pub catch_any : Result Bytes → Result Bytes
catch_any (ok b) = ok b
catch_any (err e) = err value_error

-- `_parse_label`
unfoldable pub parse_label : Text → Result Bytes
parse_label label = do
  b ← catch_any (encode label)
  if ltb (length b) 1 || ltb 64 (length b) then err value_error else ok b

-- `_parse_select`
unfoldable pub parse_select : Bytes → Result Version
parse_select response = do v ← unpack 0x79 response; from_bytes v

pub record Credential : Type 0 where
  pub label : Text
  pub algorithm : Algorithm
  pub counter : ℕ
  pub touch_required : Bool

pub record SessionKeys : Type 0 where
  pub key_senc : Bytes
  pub key_smac : Bytes
  pub key_srmac : Bytes

-- `SessionKeys.parse`
unfoldable pub parse_keys : Bytes → SessionKeys
parse_keys response = record {
  key_senc = take 16 response;
  key_smac = slice 16 32 response;
  key_srmac = slice 32 48 response;
}

-- `data[-1]`
abbrev pub last_byte : Bytes → Result ℕ
last_byte data_ = byte_at (reverse data_) 0

-- An entry of the list of credentials.
unfoldable pub listed : Tlv → Result Credential
listed t = do
  data_ ← unpack 0x72 t.bytes
  a ← byte_at data_ 0
  algorithm ← algorithm a
  touch ← byte_at data_ 1
  label ← decode (slice 2 (2 + (t.value_ln - 3)) data_)
  counter ← last_byte data_
  ok (record {
    label = label;
    algorithm = algorithm;
    counter = counter;
    touch_required = not (touch == 0);
  })

unfoldable pub listed_all : List Tlv → Result (List Credential)
listed_all [] = ok []
listed_all (t ∷ ts) = do c ← listed t; cs ← listed_all ts; ok (c ∷ cs)

-- The fields of a key, by its algorithm.
unfoldable pub key_fields : Algorithm → Bytes → Result Bytes
key_fields aes128_yubico_authentication key = do
  a ← encoded 0x75 (take 16 key)
  b ← encoded 0x76 (drop 16 key)
  ok (a ++ b)
key_fields ec_p256_yubico_authentication key = encoded 0x7d key

-- The data of `_put_credential`
unfoldable pub credential_fields : Bytes → Text → Bytes → Algorithm → Password → Bool → Result Bytes
credential_fields management_key label key algorithm credential_password touch_required = do
  b1 ← encoded 0x7b management_key
  l ← parse_label label
  b2 ← encoded 0x71 l
  b3 ← encoded 0x74 (int2bytes (algorithm_code algorithm) 0)
  b4 ← key_fields algorithm key
  p ← parse_credential_password credential_password
  b5 ← encoded 0x73 p
  b6 ← encoded 0x7a (int2bytes (if touch_required then 1 else 0) 0)
  ok (b1 ++ (b2 ++ (b3 ++ (b4 ++ (b5 ++ b6)))))

-- A management key, then a field: the data of `delete_credential` and `put_management_key`
unfoldable pub key_and : Bytes → ℕ → Bytes → Result Bytes
key_and management_key tag v = do a ← encoded 0x7b management_key; b ← encoded tag v; ok (a ++ b)

-- `if x: data += Tlv(tag, x)`
unfoldable pub field_if : ℕ → Option Bytes → Result Bytes
field_if tag none = ok []
field_if tag (some v) = if length v == 0 then ok [] else encoded tag v

-- The data of `_calculate_session_keys`
unfoldable pub context_fields : Text → Bytes → Password → Option Bytes → Option Bytes → Result Bytes
context_fields label context credential_password card_crypto public_key = do
  l ← parse_label label
  b1 ← encoded 0x71 l
  b2 ← encoded 0x77 context
  b3 ← field_if 0x7c public_key
  b4 ← field_if 0x78 card_crypto
  p ← parse_credential_password credential_password
  b5 ← encoded 0x73 p
  ok (b1 ++ (b2 ++ (b3 ++ (b4 ++ b5))))

-- `int.to_bytes(n, ln, "big")`
unfoldable pub to_bytes : ℕ → ℕ → Result Bytes
to_bytes n ln = let b = int2bytes n ln in if ltb ln (length b) then err overflow_error else ok b

-- A public key: whether its curve is P-256, and its point.
pub record PublicKey : Type 0 where
  pub is_p256 : Bool
  pub x : ℕ
  pub y : ℕ

unfoldable pub point_bytes : PublicKey → Result Bytes
point_bytes k = do a ← to_bytes k.x 32; b ← to_bytes k.y 32; ok (4 ∷ (a ++ b))

-- The data of `get_challenge`
unfoldable pub challenge_fields : Bool → Text → Option Password → Result Bytes
challenge_fields with_password label none = do l ← parse_label label; encoded 0x71 l
challenge_fields with_password label (some p) = do
  l ← parse_label label
  a ← encoded 0x71 l
  if with_password
      then (do pw ← parse_credential_password p; b ← encoded 0x73 pw; ok (a ++ b))
      else ok a
