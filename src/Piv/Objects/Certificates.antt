-- ===== src/Piv/Objects/Certificates.antt =====
-- A certificate that was put in a slot is the one that is got from it.
use yubikey_manager.Prelude.{
  ℕ, ◌^◌, ◌<◌, ◌≡◌, refl, sym, ap, ◌∙◌, arith, Bool, true, false, some, List, [], ◌∷◌, ◌++◌,
  append-nil, length, if◌then◌else◌, All,
}
use yubikey_manager.Core.Error.{ok}
use yubikey_manager.Core.Bytes.{Bytes, int2bytes}
use yubikey_manager.Core.Bytes.RoundTrip.{length-int2bytes}
use yubikey_manager.Core.Dict.{get, update, insert}
use yubikey_manager.Core.Tlv.{pack}
use yubikey_manager.Core.Tlv.Fields.{
  pack_all, IsField, parse_dict-pack_all, unpack-pack, encoded-pack, small-IsTag,
}
use yubikey_manager.SmartCard.Application.{Application}
use yubikey_manager.Piv.Types.{Slot, from_slot}
use yubikey_manager.Piv.Types.Codes.{from_slot_bounds}
use yubikey_manager.Piv.Objects.{
  X509, expected_tag, get_object, put_object, certificate_object, expand, get_certificate,
  put_certificate,
}

slot_object : (slot : Slot) → expected_tag (from_slot slot) ≡ 0x53
unfolding expected_tag
slot_object slot = ground (arith, from_slot_bounds slot)

id_size : (slot : Slot) → length (int2bytes (from_slot slot) 0) < 2 ^ 63
id_size slot = omega (arith, length-int2bytes 2 (from_slot slot) 0 (from_slot_bounds slot).1)

abbrev stored : Bytes → ℕ → List (ℕ × Bytes)
stored body info = (0x70, body) ∷ (0x71, info ∷ []) ∷ (0xfe, []) ∷ []

stored-IsField : (body : Bytes) (info : ℕ) → length body < 2 ^ 63 → All IsField (stored body info)
stored-IsField body info h = (
  (small-IsTag 0x70 (omega arith), h),
  (
    (small-IsTag 0x71 (omega arith), omega arith),
    ((small-IsTag 0xfe (omega arith), omega arith), tt),
  ),
)

pack-stored :
    (body : Bytes) (info : ℕ)
    → pack 0x70 body ++ (pack 0x71 (info ∷ []) ++ pack 0xfe []) ≡ pack_all (stored body info)
unfolding pack_all
pack-stored body info =
    ap (λ r. pack 0x70 body ++ (pack 0x71 (info ∷ []) ++ r)) (sym (append-nil (pack 0xfe [])))

-- The bytes of a certificate as they are kept, and the object that has them.
abbrev pub kept_bytes : {Certificate : Type 0} → X509 Certificate → Certificate → Bool → Bytes
kept_bytes x509 c compress =
    if compress then x509.compress (x509.public_bytes c) else x509.public_bytes c

abbrev pub kept_object : {Certificate : Type 0} → X509 Certificate → Certificate → Bool → Bytes
kept_object x509 c compress =
    pack_all (stored (kept_bytes x509 c compress) (if compress then 1 else 0))

module _ {D : Type 0} (app : Application D) where
  -- The device keeps an object: what is written under an id is read under it.
  pub record Keeps (d : D) (object_id : ℕ) (data_ : Bytes) (e f : D) : Type 0 where
    pub written :
        app.send_apdu 0 0xdb 0x3f 0xff (pack 0x5c (int2bytes object_id 0) ++ pack 0x53 data_) d
        ≡ (ok [], e)
    pub read :
        app.send_apdu 0 0xcb 0x3f 0xff (pack 0x5c (int2bytes object_id 0)) e
        ≡ (ok (pack 0x53 data_), f)

  put_object-Keeps :
      (slot : Slot) (d e f : D) (data_ : Bytes)
      → length data_ < 2 ^ 63
      → Keeps d (from_slot slot) data_ e f
      → put_object app (from_slot slot) (some data_) d ≡ (ok tt, e)
  unfolding put_object
  put_object-Keeps slot d e f data_ sized keeps =
      rw
        (encoded-pack 0x5c (int2bytes (from_slot slot) 0) (small-IsTag 0x5c (omega arith))
          (id_size slot))
        (rw (encoded-pack 0x53 data_ (small-IsTag 0x53 (omega arith)) sized)
          (rw keeps.written refl))

  get_object-Keeps :
      (slot : Slot) (d e f : D) (data_ : Bytes)
      → length data_ < 2 ^ 63
      → Keeps d (from_slot slot) data_ e f
      → get_object app (from_slot slot) e ≡ (ok data_, f)
  unfolding get_object
  get_object-Keeps slot d e f data_ sized keeps =
      rw
        (encoded-pack 0x5c (int2bytes (from_slot slot) 0) (small-IsTag 0x5c (omega arith))
          (id_size slot))
        (rw keeps.read (
          rw (slot_object slot)
            (rw (unpack-pack 0x53 0x53 data_ (small-IsTag 0x53 (omega arith)) sized) refl)))

  certificate_object-stored :
      (slot : Slot) (d e f : D) (body : Bytes) (info : ℕ)
      → length body < 2 ^ 63
      → length (pack_all (stored body info)) < 2 ^ 63
      → Keeps d (from_slot slot) (pack_all (stored body info)) e f
      → certificate_object app slot e ≡ (ok (body, info), f)
  unfolding certificate_object get update insert
  certificate_object-stored slot d e f body info b sized keeps =
      rw (get_object-Keeps slot d e f (pack_all (stored body info)) sized keeps)
        (rw (parse_dict-pack_all (stored body info) (stored-IsField body info b)) refl)

  module _ {Certificate : Type 0} (x509 : X509 Certificate) where
    expand_back :
        (c : Certificate) (compress : Bool)
        → ((b : Bytes) → x509.decompress (x509.compress b) ≡ ok b)
        → expand app x509 (if compress then 1 else 0) (kept_bytes x509 c compress)
          ≡ ok (x509.public_bytes c)
    unfolding expand
    expand_back c true gzip = gzip (x509.public_bytes c)
    expand_back c false gzip = refl

    put_back :
        (slot : Slot) (c : Certificate) (compress : Bool) (d e f : D)
        → length (kept_bytes x509 c compress) < 2 ^ 63
        → length (kept_object x509 c compress) < 2 ^ 63
        → Keeps d (from_slot slot) (kept_object x509 c compress) e f
        → put_certificate app x509 slot c compress d ≡ (ok tt, e)
    unfolding put_certificate
    put_back slot c compress d e f b sized keeps =
        rw (encoded-pack 0x70 (kept_bytes x509 c compress) (small-IsTag 0x70 (omega arith)) b) (
          rw
            (encoded-pack 0x71 ((if compress then 1 else 0) ∷ []) (small-IsTag 0x71 (omega arith))
              (omega arith))
            (rw (encoded-pack 0xfe [] (small-IsTag 0xfe (omega arith)) (omega arith)) (
              ap (λ o. put_object app (from_slot slot) (some o) d)
                (pack-stored (kept_bytes x509 c compress) (if compress then 1 else 0))
              ∙ put_object-Keeps slot d e f (kept_object x509 c compress) sized keeps)))

    -- `put_certificate`, with compression and without, succeeds, and `get_certificate` then
    -- returns the certificate. The device returns under an object id what was written under it,
    -- gzip returns what it compressed, a certificate is loaded from its own bytes, and these are
    -- shorter than 2 ^ 63.
    pub get_certificate-put_certificate :
        (slot : Slot) (c : Certificate) (compress : Bool) (d e f : D)
        → ((b : Bytes) → x509.decompress (x509.compress b) ≡ ok b)
        → x509.load (x509.public_bytes c) ≡ ok c
        → length (kept_bytes x509 c compress) < 2 ^ 63
        → length (kept_object x509 c compress) < 2 ^ 63
        → Keeps d (from_slot slot) (kept_object x509 c compress) e f
        → (put_certificate app x509 slot c compress d ≡ (ok tt, e))
          × (get_certificate app x509 slot e ≡ (ok c, f))
    unfolding get_certificate
    get_certificate-put_certificate slot c compress d e f gzip loads b sized keeps = (
      put_back slot c compress d e f b sized keeps,
      rw
          (certificate_object-stored slot d e f (kept_bytes x509 c compress)
            (if compress then 1 else 0) b sized keeps)
          (rw (expand_back c compress gzip) (rw loads refl)),
    )
