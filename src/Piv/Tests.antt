-- ===== src/Piv/Tests.antt =====
-- The theorems on yubikit/piv.py at concrete devices.
use yubikey_manager.Prelude.{
  ℕ, zero, suc, ◌+◌, ◌≤◌, ◌<◌, ◌≡◌, ◌≢◌, ◌⊎◌, refl, arith, true, none, some, [], ◌∷◌, ◌++◌, ◌==◌,
  if◌then◌else◌,
}
use yubikey_manager.Core.Error.{Result, ok, err, bad_response, apdu_error}
use yubikey_manager.Core.Bytes.{Bytes, int2bytes, int2bytes_loop}
use yubikey_manager.Core.Version.{version}
use yubikey_manager.Core.Tlv.{pack, length_bytes}
use yubikey_manager.Core.Tlv.Fields.{pack_all}
use yubikey_manager.SmartCard.Application.{Application}
use yubikey_manager.Piv.Types.{signature, aes192, ManagementKeyType, management_key_code}
use yubikey_manager.Piv.Pin.{retries_from_sw}
use yubikey_manager.Piv.Pin.Bounds.{retries_from_sw_lem}
use yubikey_manager.Piv.Fascn.{FascN, fascn_bytes, fascn_from_bytes}
use yubikey_manager.Piv.Fascn.RoundTrip.{IsFascN, fascn_from_bytes-fascn_bytes}
use yubikey_manager.Piv.Session.{Session}
use yubikey_manager.Piv.Management.{Outside, authenticate}
use yubikey_manager.Piv.Management.Authenticating.{Exchange, nested, authenticate_lem}
use yubikey_manager.Piv.Objects.{X509, get_certificate, put_certificate}
use yubikey_manager.Piv.Objects.Certificates.{kept_object, get_certificate-put_certificate}

abbrev pin_failed : ℕ
pin_failed = 0x63c3

retries_from_sw_example :
    ((n : ℕ) × (n < 16) × (pin_failed ≡ 0x63c0 + n) × (retries_from_sw pin_failed ≡ some n))
    ⊎ ((n : ℕ) × (n < 256)
        × ((n < 0xc0) ⊎ (0xd0 ≤ n))
        × (pin_failed ≡ 0x6300 + n)
        × (retries_from_sw pin_failed ≡ some n))
    ⊎ ((pin_failed ≡ 0x6983) × (retries_from_sw pin_failed ≡ some 0))
    ⊎ ((pin_failed ≢ 0x6983)
        × ((pin_failed < 0x6300) ⊎ (0x6400 ≤ pin_failed))
        × (retries_from_sw pin_failed ≡ none))
retries_from_sw_example = retries_from_sw_lem pin_failed (omega arith)

-- A device with the attempts of its PIN and of its PUK, and the type of its management key.
abbrev Counters : Type 0
Counters = ℕ × ℕ × ManagementKeyType

abbrev pin : Counters → ℕ
pin d = d.0

abbrev puk : Counters → ℕ
puk d = d.1

abbrev kind : Counters → ManagementKeyType
kind d = d.2

abbrev spend_pin : Counters → Result Bytes × Counters
spend_pin (zero, k, t) = (err (apdu_error [] 0x6983), (zero, k, t))
spend_pin (suc n, k, t) = (err (apdu_error [] (0x63c0 + n)), (n, k, t))

abbrev spend_puk : Counters → Result Bytes × Counters
spend_puk (n, zero, t) = (err (apdu_error [] 0x6983), (n, zero, t))
spend_puk (n, suc k, t) = (err (apdu_error [] (0x63c0 + k)), (n, k, t))

abbrev restart : Counters → Result Bytes × Counters
restart (zero, zero, t) = (ok [], (3, 3, aes192))
restart d = (err (apdu_error [] 0x6985), d)

abbrev tell : ℕ → Counters → Result Bytes × Counters
tell p2 d =
    if p2 == 0x96
    then (err (apdu_error [] 0x6d00), d)
    else if p2 == 0x9b
    then (
      ok (
          pack_all
            ((0x01, management_key_code (kind d) ∷ []) ∷ (0x02, 0 ∷ 1 ∷ []) ∷ (0x05, 1 ∷ []) ∷ [])),
      d,
    )
    else (
      ok (pack_all ((0x05, 0 ∷ []) ∷ (0x06, 3 ∷ (if p2 == 0x80 then pin d else puk d) ∷ []) ∷ [])),
      d,
    )

abbrev counting : Application Counters
counting = record {
  send_apdu = λ cla ins p1 p2 body d.
      if ins == 0x20
      then spend_pin d
      else if ins == 0x2c
      then spend_puk d
      else if ins == 0xfb
      then restart d
      else tell p2 d;
  select = λ aid d. (ok [], d);
  configure = λ v d. (ok tt, d);
  init_scp = λ d. (ok tt, d);
}

-- A stand-in for the cipher: the key before the text.
abbrev outside : {D : Type 0} → Outside D
outside = record {
  encrypt = λ type key text. ok (key ++ text);
  decrypt = λ type key text. ok (key ++ text);
  urandom = λ n d. (7 ∷ 8 ∷ [], d);
}

abbrev session : {D : Type 0} → D → Session D
session d = record {
  world = d;
  version = version 5 7 0;
  management_key_type = aes192;
  current_pin_retries = 3;
  max_pin_retries = 3;
}

-- A device that answers with the witness 1, then with what it is given.
abbrev answering : Bytes → Application ℕ
answering answer = record {
  send_apdu = λ cla ins p1 p2 body d.
      (ok (if d == 0 then nested 0x80 (1 ∷ []) else nested 0x82 answer), d + 1);
  select = λ aid d. (ok [], d);
  configure = λ v d. (ok tt, d);
  init_scp = λ d. (ok tt, d);
}

abbrev wrong : Bytes
wrong = 9 ∷ []

-- The key, and the challenge that is drawn.
abbrev expected : Bytes
expected = 2 ∷ 7 ∷ 8 ∷ []

exchange : Exchange outside none (answering wrong) (session 0) (2 ∷ []) wrong expected 2
unfolding pack length_bytes int2bytes int2bytes_loop
exchange = record {
  first = 1;
  second = 1;
  witness = 1 ∷ [];
  challenge = 7 ∷ 8 ∷ [];
  decrypted = 2 ∷ 1 ∷ [];
  asks = refl;
  draws = refl;
  decrypts = refl;
  answers = refl;
  encrypts = refl;
  short_witness = (omega arith, omega arith);
  short_empty = omega arith;
  short_proof = (omega arith, omega arith, omega arith);
  short_answer = (omega arith, omega arith);
}

authenticate_example :
    ((wrong ≡ expected)
      × (authenticate outside none (answering wrong) (2 ∷ []) (session 0) ≡ (ok tt, session 2)))
    ⊎ ((wrong ≢ expected)
        × (authenticate outside none (answering wrong) (2 ∷ []) (session 0)
            ≡ (err bad_response, session 2)))
authenticate_example =
    authenticate_lem outside none (answering wrong) (session 0) (2 ∷ []) wrong expected 2 exchange

-- Certificates that are their bytes, and a compression that puts a byte in front.
abbrev uncompress : Bytes → Result Bytes
uncompress [] = err bad_response
uncompress (b ∷ bs) = ok bs

abbrev plain_x509 : X509 Bytes
plain_x509 = record {
  public_bytes = λ c. c;
  load = λ b. ok b;
  compress = λ b. 0 ∷ b;
  decompress = uncompress;
}

-- A device that has an object.
abbrev keeping : Bytes → Application (Unit {0})
keeping object = record {
  send_apdu = λ cla ins p1 p2 body d. (ok (if ins == 0xdb then [] else pack 0x53 object), d);
  select = λ aid d. (ok [], d);
  configure = λ v d. (ok tt, d);
  init_scp = λ d. (ok tt, d);
}

abbrev kept : Bytes
kept = kept_object plain_x509 (4 ∷ 5 ∷ []) true

get_certificate-put_certificate_example :
    (put_certificate (keeping kept) plain_x509 signature (4 ∷ 5 ∷ []) true tt ≡ (ok tt, tt))
    × (get_certificate (keeping kept) plain_x509 signature tt ≡ (ok (4 ∷ 5 ∷ []), tt))
unfolding pack pack_all length_bytes int2bytes int2bytes_loop
get_certificate-put_certificate_example =
    get_certificate-put_certificate (keeping kept) plain_x509 signature (4 ∷ 5 ∷ []) true tt tt tt
      (λ b. refl) refl (omega arith) (omega arith) (record { written = refl; read = refl })

-- The FASC-N of yubikit's tests.
abbrev sample : FascN
sample = record {
  agency_code = 32;
  system_code = 1;
  credential_number = 92446;
  credential_series = 0;
  individual_credential_issue = 1;
  person_identifier = 1112223333;
  organizational_category = 1;
  organizational_identifier = 1223;
  organization_association_category = 2;
}

sample-IsFascN : IsFascN sample
sample-IsFascN = record {
  agency_code = omega arith;
  system_code = omega arith;
  credential_number = omega arith;
  credential_series = omega arith;
  individual_credential_issue = omega arith;
  person_identifier = omega arith;
  organizational_category = omega arith;
  organizational_identifier = omega arith;
  organization_association_category = omega arith;
}

fascn_from_bytes-fascn_bytes_example : fascn_from_bytes (fascn_bytes sample) ≡ sample
fascn_from_bytes-fascn_bytes_example = fascn_from_bytes-fascn_bytes sample sample-IsFascN
