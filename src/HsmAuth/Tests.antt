-- ===== src/HsmAuth/Tests.antt =====
-- The theorems on yubikit/hsmauth.py at a concrete device.
use yubikey_manager.Prelude.{
  ℕ, ◌+◌, ◌≤◌, ◌<◌, ◌≡◌, ◌⊎◌, inl, refl, arith, true, none, List, [], ◌∷◌, map, replicate,
}
use yubikey_manager.Core.Error.{Result, ok, err, invalid_pin, apdu_error}
use yubikey_manager.Core.Bytes.{Bytes}
use yubikey_manager.Core.Text.{encode, encode_char}
use yubikey_manager.Core.Version.{version}
use yubikey_manager.Core.Tlv.Fields.{pack_all}
use yubikey_manager.SmartCard.Application.{Application}
use yubikey_manager.HsmAuth.Data.{Credential, ec_p256_yubico_authentication}
use yubikey_manager.HsmAuth.Session.{list_credentials, put_management_key}
use yubikey_manager.HsmAuth.Listing.{entry, list_credentials_lem}
use yubikey_manager.HsmAuth.Refusal.{put_management_key_lem}

-- A device that answers everything in one way.
abbrev device : Result Bytes → Application (Unit {0})
device answer = record {
  send_apdu = λ cla ins p1 p2 body d. (answer, d);
  select = λ aid d. (ok [], d);
  configure = λ v d. (ok tt, d);
  init_scp = λ d. (ok tt, d);
}

abbrev credential : Credential
credential = record {
  label = 0x61 ∷ 0xe9 ∷ [];
  algorithm = ec_p256_yubico_authentication;
  counter = 8;
  touch_required = true;
}

abbrev listing : List (Credential × Bytes)
listing = (credential, 0x61 ∷ 0xc3 ∷ 0xa9 ∷ []) ∷ []

list_credentials_example :
    list_credentials none (device (ok (pack_all (map entry listing)))) (version 5 7 0) tt
    ≡ (ok (credential ∷ []), tt)
unfolding encode encode_char
list_credentials_example =
    list_credentials_lem none (device (ok (pack_all (map entry listing)))) (version 5 7 0) listing
      tt tt (((inl (omega arith), (inl (omega arith), tt)), refl, omega arith), tt) refl

put_management_key_example :
    ((n : ℕ) × (n < 16)
      × (0x63c5 ≡ 0x63c0 + n)
      × (put_management_key none
            (device (err (apdu_error [] 0x63c5)))
            (version 5 7 0)
            (replicate 16 0)
            (replicate 16 1)
            tt
          ≡ (err (invalid_pin n), tt)))
    ⊎ (((0x63c5 < 0x63c0) ⊎ (0x63d0 ≤ 0x63c5))
        × (put_management_key none
              (device (err (apdu_error [] 0x63c5)))
              (version 5 7 0)
              (replicate 16 0)
              (replicate 16 1)
              tt
            ≡ (err (apdu_error [] 0x63c5), tt)))
put_management_key_example =
    put_management_key_lem none (device (err (apdu_error [] 0x63c5))) (version 5 7 0)
      (replicate 16 0) (replicate 16 1) [] 0x63c5 tt tt refl refl (omega arith) refl
