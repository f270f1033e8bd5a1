-- ===== src/Piv/Objects.antt =====
-- yubikit/piv.py: the data objects and the certificates of `PivSession`. These operations read and
-- write the device alone, so their state is that of the world.
pub mod Certificates
use yubikey_manager.Prelude.{
  ℕ, Bool, true, false, not, Option, none, some, List, [], ◌∷◌, ◌++◌, ◌==◌, if◌then◌else◌,
}
use yubikey_manager.Core.Error.{
  Error, Result, ok, err, value_error, key_error, bad_response, not_supported, from_option,
}
use yubikey_manager.Core.Io.{Io, pure, raise, lift, catch, ◌>>=◌, ◌>>◌}
use yubikey_manager.Core.Bytes.{Bytes, byte_at, int2bytes}
use yubikey_manager.Core.Dict.{Dict, get}
use yubikey_manager.Core.Tlv.{encoded, unpack, parse_dict}
use yubikey_manager.SmartCard.Application.{Application}
use yubikey_manager.Piv.Types.{Slot, from_slot}

-- X.509 certificates of the cryptography package, and gzip.
pub record X509 (Certificate : Type 0) : Type 0 where
  pub public_bytes : Certificate → Bytes
  pub load : Bytes → Result Certificate
  pub compress : Bytes → Bytes
  pub decompress : Bytes → Result Bytes

module _ {D A : Type 0} where
  -- `except ValueError` and `except (ValueError, KeyError)`, which raise `BadResponseError`
  abbrev pub if_value_error : Error → Io D A
  if_value_error Error.value_error = raise bad_response
  if_value_error e = raise e

  abbrev pub if_malformed : Error → Io D A
  if_malformed Error.value_error = raise bad_response
  if_malformed Error.key_error = raise bad_response
  if_malformed e = raise e

-- `data or b""`
abbrev pub or_empty : Option Bytes → Bytes
or_empty none = []
or_empty (some b) = b

-- The tag that an object is returned under.
unfoldable pub expected_tag : ℕ → ℕ
expected_tag object_id = if object_id == 0x7e then 0x7e else 0x53

-- `data[TAG_CERT_INFO][0] if TAG_CERT_INFO in data else 0`
abbrev pub cert_info_of : Dict Bytes → Result ℕ
cert_info_of d = elim (get d 0x71) [ none ↦ ok 0 | some b ↦ byte_at b 0 ]

module _ {D : Type 0} (app : Application D) where
  unfoldable pub get_object : ℕ → Io D Bytes
  get_object object_id =
      catch
        (do
          t ← lift (encoded 0x5c (int2bytes object_id 0))
          response ← app.send_apdu 0 0xcb 0x3f 0xff t
          lift (unpack (expected_tag object_id) response))
        if_value_error

  unfoldable pub put_object : ℕ → Option Bytes → Io D Unit
  put_object object_id data_ = do
    a ← lift (encoded 0x5c (int2bytes object_id 0))
    b ← lift (encoded 0x53 (or_empty data_))
    _ ← app.send_apdu 0 0xdb 0x3f 0xff (a ++ b)
    pure tt

  -- The certificate's bytes and its CertInfo, out of the object.
  unfoldable pub certificate_object : Slot → Io D (Bytes × ℕ)
  certificate_object slot =
      catch
        (do
          object ← get_object (from_slot slot)
          data_ ← lift (parse_dict object)
          cert_data ← lift (from_option key_error (get data_ 0x70))
          cert_info ← lift (cert_info_of data_)
          pure (cert_data, cert_info))
        if_malformed

  unfoldable pub delete_certificate : Slot → Io D Unit
  delete_certificate slot = put_object (from_slot slot) none

  module _ {Certificate : Type 0} (x509 : X509 Certificate) where
    -- `gzip.decompress`, where CertInfo says so
    unfoldable pub expand : ℕ → Bytes → Result Bytes
    expand cert_info cert_data =
        if cert_info == 1
        then x509.decompress cert_data
        else if cert_info == 0
        then ok cert_data
        else err not_supported

    abbrev pub loaded : Result Certificate → Result Certificate
    loaded (ok c) = ok c
    loaded (err e) = err bad_response

    unfoldable pub get_certificate : Slot → Io D Certificate
    get_certificate slot = do
      (cert_data, cert_info) ← certificate_object slot
      der ← lift (expand cert_info cert_data)
      lift (loaded (x509.load der))

    unfoldable pub put_certificate : Slot → Certificate → Bool → Io D Unit
    put_certificate slot certificate compress = do
      let der : Bytes = x509.public_bytes certificate
      a ← lift (encoded 0x70 (if compress then x509.compress der else der))
      b ← lift (encoded 0x71 ((if compress then 1 else 0) ∷ []))
      c ← lift (encoded 0xfe [])
      put_object (from_slot slot) (some (a ++ (b ++ c)))
