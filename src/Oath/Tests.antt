-- ===== src/Oath/Tests.antt =====
-- The theorems on yubikit/oath.py at concrete credentials and devices.
use yubikey_manager.Prelude.{
  ℕ, ◌-◌, ◌%◌, ◌^◌, ◌≤◌, ◌<◌, ◌≡◌, ◌≢◌, ◌⊎◌, inl, refl, arith, true, false, Option, none, some, [],
  ◌∷◌, ◌++◌, bit_and, if◌then◌else◌,
}
use yubikey_manager.Core.Error.{ok, err, bad_response}
use yubikey_manager.Core.Bytes.{Bytes, bytes2int}
use yubikey_manager.Core.Text.{within, show, digits_loop, encode, encode_char}
use yubikey_manager.Core.Version.{version, tuple_lt, effective, require_version}
use yubikey_manager.Core.Tlv.{pack}
use yubikey_manager.SmartCard.Application.{Application}
use yubikey_manager.Oath.Credential.{
  totp, Credential, period_prefix, issuer_prefix, format_cred_id, parse_cred_id,
}
use yubikey_manager.Oath.Credential.Ids.{IsDecimal, parse_cred_id-format_cred_id}
use yubikey_manager.Oath.Code.{Code, format_code}
use yubikey_manager.Oath.Code.Digits.{IsNumeral, format_code-IsNumeral}
use yubikey_manager.Oath.Data.{Outside}
use yubikey_manager.Oath.Session.{Session, validate}
use yubikey_manager.Oath.Store.{rename_credential}
use yubikey_manager.Oath.Session.Locking.{Exchange, validate_lem}
use yubikey_manager.Oath.Store.Renaming.{IsLegible, rename_credential_lem}

-- The decimal characters of ASCII.
abbrev ascii : ℕ → Option ℕ
ascii c = if within 48 c 57 then some (c - 48) else none

ascii-IsDecimal : IsDecimal ascii
ascii-IsDecimal = record { digit = λ c h. ground (arith, h); slash = refl }

parse_cred_id-format_cred_id_example :
    (b : Bytes) × (format_cred_id (some (65 ∷ [])) (98 ∷ 99 ∷ []) totp 60 ≡ ok b)
    × (parse_cred_id ascii b totp ≡ ok (some (65 ∷ []), 98 ∷ 99 ∷ [], 60))
unfolding period_prefix issuer_prefix show digits_loop
parse_cred_id-format_cred_id_example =
    parse_cred_id-format_cred_id ascii ascii-IsDecimal (some (65 ∷ [])) (98 ∷ 99 ∷ [])
      (omega arith, (refl, tt)) (refl, (refl, tt)) (omega arith) totp 60
      (
        inl (omega arith),
        (
          inl (omega arith),
          (
            inl (omega arith),
            (inl (omega arith), (inl (omega arith), (inl (omega arith), (inl (omega arith), tt)))),
          ),
        ),
      )
      (λ e. absurd (omega (arith, e)))

abbrev totp_credential : Credential
totp_credential = record {
  device_id = [];
  id = 98 ∷ [];
  issuer = none;
  name = 98 ∷ [];
  oath_type = totp;
  period = 30;
  touch_required = none;
}

format_code-IsNumeral_example :
    (code : Code) × (format_code totp_credential 59 (6 ∷ 0x12 ∷ 0x34 ∷ 0x56 ∷ 0x78 ∷ []) ≡ ok code)
    × IsNumeral 6
        (bit_and (bytes2int (0x12 ∷ 0x34 ∷ 0x56 ∷ 0x78 ∷ [])) 0x7fffffff % 10 ^ 6)
        code.value
    × (code.valid_from ≤ 59)
    × (59 < code.valid_to)
format_code-IsNumeral_example =
    format_code-IsNumeral totp_credential 59 5 (0x12 ∷ 0x34 ∷ 0x56 ∷ 0x78 ∷ []) (omega arith)
      (omega arith)

-- A stand-in for the functions of the standard library: the HMAC is the key and the message.
abbrev outside : Outside (Unit {0})
outside = record {
  hmac_sha1 = λ key m. key ++ m;
  pbkdf2_hmac = λ p salt. p ++ salt;
  digest = λ a m. m;
  base64 = λ b. b;
  decimal = ascii;
  urandom = λ n d. (7 ∷ 8 ∷ [], d);
  time = λ d. (59, d);
}

-- A device that has the key 1.
abbrev device : Bytes → Application (Unit {0})
device answer = record {
  send_apdu = λ cla ins p1 p2 body d. (ok answer, d);
  select = λ aid d. (ok [], d);
  configure = λ v d. (ok tt, d);
  init_scp = λ d. (ok tt, d);
}

abbrev session : Session (Unit {0})
session = record {
  world = tt;
  version = version 5 7 0;
  salt = none;
  challenge = some (3 ∷ []);
  uses_scp = false;
  has_key = true;
  device_id = [];
  neo_unlock_workaround = false;
}

-- The key, and the challenge that is drawn.
abbrev answer : Bytes
answer = 1 ∷ 7 ∷ 8 ∷ []

exchange : Exchange outside none (device (pack 0x75 answer)) session (1 ∷ []) (7 ∷ 8 ∷ []) answer tt
exchange = record {
  drawn = tt;
  draws = refl;
  answers = refl;
  response_size = omega arith;
  challenge_size = omega arith;
  answer_size = omega arith;
}

validate_example :
    ((answer ≡ answer)
      × (validate outside none (device (pack 0x75 answer)) (1 ∷ []) session
          ≡ (ok tt, record session { challenge = none })))
    ⊎ ((answer ≢ answer)
        × (validate outside none (device (pack 0x75 answer)) (1 ∷ []) session
            ≡ (err bad_response, session)))
validate_example =
    validate_lem outside none (device (pack 0x75 answer)) session (1 ∷ []) (7 ∷ 8 ∷ []) answer tt
      exchange

legible : IsLegible ascii (some (65 ∷ [])) (98 ∷ []) 60
unfolding period_prefix issuer_prefix show digits_loop
legible = record {
  split = (omega arith, (refl, tt));
  one_line = (refl, tt);
  some_name = omega arith;
  chars = (
    inl (omega arith),
    (
      inl (omega arith),
      (inl (omega arith), (inl (omega arith), (inl (omega arith), (inl (omega arith), tt)))),
    ),
  );
  no_period = λ e. absurd (omega (arith, e));
}

rename_credential_example :
    rename_credential outside none
      (device [])
      (54 ∷ 48 ∷ 47 ∷ 65 ∷ 58 ∷ 98 ∷ [])
      (99 ∷ [])
      none
      session
    ≡ (ok (54 ∷ 48 ∷ 47 ∷ 99 ∷ []), session)
unfolding format_cred_id period_prefix issuer_prefix show digits_loop encode encode_char
    require_version effective tuple_lt
rename_credential_example =
    rename_credential_lem outside none (device []) session (some (65 ∷ [])) (98 ∷ []) 60
      (54 ∷ 48 ∷ 47 ∷ 65 ∷ 58 ∷ 98 ∷ []) none (99 ∷ []) (54 ∷ 48 ∷ 47 ∷ 99 ∷ []) [] tt
      ascii-IsDecimal legible refl refl refl (omega arith) (omega arith) refl
