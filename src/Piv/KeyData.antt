-- ===== src/Piv/KeyData.antt =====
-- yubikit/piv.py: the kinds of keys, what is sent of a key, and how messages are padded.
use yubikey_manager.Core.Dict.{get}
use yubikey_manager.Prelude.{ℕ, ◌/◌, [], ◌++◌, ltb, ◌==◌, if◌then◌else◌, length, take}
use yubikey_manager.Core.Error.{
  Result, ok, err, value_error, key_error, not_supported, from_option, ◌>>=◌,
}
use yubikey_manager.Core.Bytes.{Bytes, bytes2int, int2bytes, rjust}
use yubikey_manager.Core.Tlv.{encoded, parse_dict}
use yubikey_manager.Piv.Types.{
  KeyType, rsa1024, rsa2048, rsa3072, rsa4096, eccp256, eccp384, ed25519, x25519, is_rsa,
}

-- A key of the cryptography package, as `from_public_key` tells them apart.
pub data Curve : Type 0 where
  secp256r1 secp384r1 other_curve : Curve

pub data KeyKind : Type 0 where
  rsa_kind : ℕ → KeyKind
  ec_kind : Curve → KeyKind
  ed25519_kind x25519_kind other_kind : KeyKind

-- `getattr(cls, "RSA%d" % key_size)`
unfoldable pub rsa_type : ℕ → Result KeyType
rsa_type size =
    if size == 1024
    then ok rsa1024
    else if size == 2048
    then ok rsa2048
    else if size == 3072
    then ok rsa3072
    else if size == 4096
    then ok rsa4096
    else err value_error

-- `KEY_TYPE.from_public_key`
unfoldable pub from_public_key : KeyKind → Result KeyType
from_public_key (rsa_kind size) = rsa_type size
from_public_key (ec_kind secp256r1) = ok eccp256
from_public_key (ec_kind secp384r1) = ok eccp384
from_public_key (ec_kind other_curve) = err value_error
from_public_key ed25519_kind = ok ed25519
from_public_key x25519_kind = ok x25519
from_public_key other_kind = err value_error

-- The private numbers of a key, or its raw bytes.
pub record RsaNumbers : Type 0 where
  pub e : ℕ
  pub p : ℕ
  pub q : ℕ
  pub dmp1 : ℕ
  pub dmq1 : ℕ
  pub iqmp : ℕ

pub data PrivateKey : Type 0 where
  rsa_private : ℕ → RsaNumbers → PrivateKey
  ec_private : Curve → ℕ → PrivateKey
  ed25519_private x25519_private : Bytes → PrivateKey

unfoldable pub kind_of : PrivateKey → KeyKind
kind_of (rsa_private size n) = rsa_kind size
kind_of (ec_private curve value) = ec_kind curve
kind_of (ed25519_private raw) = ed25519_kind
kind_of (x25519_private raw) = x25519_kind

-- The five numbers of an RSA key, each of half the key's length.
unfoldable pub rsa_fields : ℕ → RsaNumbers → Result Bytes
rsa_fields ln n =
    if n.e == 65537
    then (do
      a ← encoded 0x01 (int2bytes n.p (ln / 2))
      b ← encoded 0x02 (int2bytes n.q (ln / 2))
      c ← encoded 0x03 (int2bytes n.dmp1 (ln / 2))
      d ← encoded 0x04 (int2bytes n.dmq1 (ln / 2))
      e ← encoded 0x05 (int2bytes n.iqmp (ln / 2))
      ok (a ++ (b ++ (c ++ (d ++ e)))))
    else err not_supported

-- The fields of a key that `put_key` imports, for its length in bytes
unfoldable pub key_fields : ℕ → PrivateKey → Result Bytes
key_fields ln (rsa_private size n) = rsa_fields ln n
key_fields ln (ec_private curve value) = encoded 0x06 (int2bytes value ln)
key_fields ln (ed25519_private raw) = encoded 0x07 raw
key_fields ln (x25519_private raw) = encoded 0x08 raw

-- `if policy: data += Tlv(tag, int2bytes(policy))`
unfoldable pub policy_field : ℕ → ℕ → Result Bytes
policy_field tag policy = if policy == 0 then ok [] else encoded tag (int2bytes policy 0)

-- A public key that a device returns: the numbers of an RSA key, or the bytes of another.
pub data DeviceKey : Type 0 where
  rsa_numbers : ℕ → ℕ → DeviceKey
  encoded_key : KeyType → Bytes → DeviceKey

-- `_parse_device_public_key`, up to the constructors of the cryptography package
unfoldable pub parse_device_public_key : KeyType → Bytes → Result DeviceKey
parse_device_public_key type data_ = do
  d ← parse_dict data_
  if is_rsa type
      then (do
        modulus ← from_option key_error (get d 0x81)
        exponent ← from_option key_error (get d 0x82)
        ok (rsa_numbers (bytes2int modulus) (bytes2int exponent)))
      else (do key ← from_option key_error (get d 0x86); ok (encoded_key type key))

-- `_pad_message`: `hashed` is the hash, or the message where that is prehashed, and `rsa_padded` what
-- a signature with a dummy RSA key of the length holds.
abbrev pub pad_hash : ℕ → Bytes → Bytes
pad_hash byte_len hashed =
    if ltb (length hashed) byte_len then rjust (byte_len / 8) 0 hashed else take byte_len hashed

unfoldable pub pad_message : (ℕ → Result Bytes) → Bytes → Bytes → KeyType → Result Bytes
pad_message rsa_padded hashed message ed25519 = ok message
pad_message rsa_padded hashed message x25519 = ok message
pad_message rsa_padded hashed message eccp256 = ok (pad_hash (256 / 8) hashed)
pad_message rsa_padded hashed message eccp384 = ok (pad_hash (384 / 8) hashed)
pad_message rsa_padded hashed message rsa1024 = rsa_padded 1024
pad_message rsa_padded hashed message rsa2048 = rsa_padded 2048
pad_message rsa_padded hashed message rsa3072 = rsa_padded 3072
pad_message rsa_padded hashed message rsa4096 = rsa_padded 4096
