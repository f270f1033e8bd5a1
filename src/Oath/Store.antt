-- ===== src/Oath/Store.antt =====
-- yubikit/oath.py: `OathSession`: the credentials on a device, and their codes.
pub mod Renaming
use yubikey_manager.Prelude.{
  ℕ, zero, suc, ◌+◌, ◌-◌, Bool, true, false, not, ◌&&◌, ◌||◌, Option, none, some, List, [], ◌∷◌,
  ◌++◌, bit_and, bit_or, ltb, ◌==◌, if◌then◌else◌, length, take, drop, map,
}
use yubikey_manager.Core.Error.{
  Error, Result, ok, err, value_error, index_error, type_error, bad_response, not_supported,
  from_option,
}
use yubikey_manager.Core.Io.{Io, pure, raise, lift, ◌>>=◌, ◌>>◌}
use yubikey_manager.Core.Bytes.{Bytes, bytes_eq, byte_at, int2bytes, ljust, pack_b, pack_be32}
use yubikey_manager.Core.Dict.{Dict, get}
use yubikey_manager.Core.Text.{Text, encode}
use yubikey_manager.Core.Version.{Version, from_bytes, is_before, is_between, require_version}
use yubikey_manager.Core.Tlv.{Tlv, value, encoded, parse_list, parse_dict, unpack}
use yubikey_manager.SmartCard.Application.{Application}
use yubikey_manager.Oath.Credential.{
  HashAlgorithm, sha1, sha256, sha512, algorithm_code, OathType, hotp, totp, type_code, oath_type,
  is_totp, default_period, CredentialData, Credential, format_cred_id, get_id, parse_cred_id,
}
use yubikey_manager.Oath.Data.{Outside, parse_select, get_device_id, credential_fields, listed_all}
use yubikey_manager.Oath.Code.{Code, get_challenge, format_code}
use yubikey_manager.Oath.Session.{Session, on_world, reads, send}

-- `timestamp or time()`
abbrev pub given : Option ℕ → Option ℕ
given none = none
given (some t) = if t == 0 then none else some t

-- `entries[credential] = code`: credentials are the same where their ids are, on one device.
unfoldable pub assign :
    List (Credential × Option Code) → Credential → Option Code → List (Credential × Option Code)
assign [] c code = (c, code) ∷ []
assign ((d, old) ∷ entries) c code =
    let rest = assign entries c code in
    if bytes_eq d.device_id c.device_id && bytes_eq d.id c.id
    then (d, code) ∷ entries
    else (d, old) ∷ rest

module _ {D : Type 0} (outside : Outside D) (override : Option Version) (app : Application D) where
  -- `int(timestamp or time())`
  unfoldable pub now : Option ℕ → Io (Session D) ℕ
  now timestamp = elim (given timestamp) [
    | some t ↦ pure t
    | none ↦ on_world outside override app (λ d. let (t, e) = outside.time d in (ok t, e))
  ]

  unfoldable pub put_credential : CredentialData → Bool → Io (Session D) Credential
  put_credential d touch_required = do
    cred_id ← lift (get_id d)
    fields ← lift (credential_fields outside d touch_required cred_id)
    _ ← send outside override app 0x01 0 0 fields
    device_id ← reads outside override app (λ s. s.device_id)
    pure (record {
      device_id = device_id;
      id = cred_id;
      issuer = d.issuer;
      name = d.name;
      oath_type = d.oath_type;
      period = d.period;
      touch_required = some touch_required;
    })

  unfoldable pub rename_credential : Bytes → Text → Option Text → Io (Session D) Bytes
  rename_credential credential_id name issuer = do
    version ← reads outside override app (λ s. s.version)
    lift (require_version override version (5 ∷ 3 ∷ 1 ∷ []))
    (_, _, period) ← lift (parse_cred_id outside.decimal credential_id totp)
    new_id ← lift (format_cred_id issuer name totp period)
    a ← lift (encoded 0x71 credential_id)
    b ← lift (encoded 0x71 new_id)
    _ ← send outside override app 0x05 0 0 (a ++ b)
    pure new_id

  unfoldable pub list_credentials : Io (Session D) (List Credential)
  list_credentials = do
    response ← send outside override app 0xa1 0 0 []
    ts ← lift (parse_list response)
    device_id ← reads outside override app (λ s. s.device_id)
    lift (listed_all outside device_id ts)

  -- The request of `calculate`, with P2, and the value under a tag of the answer
  unfoldable pub calculate_apdu : ℕ → ℕ → Bytes → Bytes → Io (Session D) Bytes
  calculate_apdu p2 tag credential_id challenge = do
    a ← lift (encoded 0x71 credential_id)
    b ← lift (encoded 0x74 challenge)
    response ← send outside override app 0xa2 0 p2 (a ++ b)
    lift (unpack tag response)

  unfoldable pub calculate : Bytes → Bytes → Io (Session D) Bytes
  calculate credential_id challenge = do
    resp ← calculate_apdu 0 0x75 credential_id challenge
    pure (drop 1 resp)

  unfoldable pub delete_credential : Bytes → Io (Session D) Unit
  delete_credential credential_id = do
    a ← lift (encoded 0x71 credential_id)
    _ ← send outside override app 0x02 0 0 a
    pure tt

  abbrev pub code_challenge : Credential → ℕ → Result Bytes
  code_challenge c timestamp =
      if is_totp c.oath_type then get_challenge timestamp c.period else ok []

  unfoldable pub calculate_code : Credential → Option ℕ → Io (Session D) Code
  calculate_code credential timestamp = do
    device_id ← reads outside override app (λ s. s.device_id)
    if bytes_eq credential.device_id device_id then pure tt else raise value_error
    t ← now timestamp
    challenge ← lift (code_challenge credential t)
    response ← calculate_apdu 0x01 0x76 credential.id challenge
    lift (format_code credential t response)

  -- The code of an entry: only one with a truncated response has it.
  unfoldable pub entry_code : Credential → ℕ → Tlv → Io (Session D) (Option Code)
  entry_code credential timestamp t =
      if t.tag == 0x76
      then (do
        code ←
            if credential.period == default_period
            then lift (format_code credential timestamp (value t))
            else calculate_code credential (some timestamp)
        pure (some code))
      else pure none

  -- `while data`: a name and a response are taken in each round.
  unfoldable pub calculate_entries :
      ℕ
      → List Tlv
      → List (Credential × Option Code)
      → Io (Session D) (List (Credential × Option Code))
  calculate_entries timestamp [] entries = pure entries
  calculate_entries timestamp (n ∷ []) entries = do
    _ ← lift (unpack 0x71 n.bytes)
    raise index_error
  calculate_entries timestamp (n ∷ t ∷ ts) entries = do
    cred_id ← lift (unpack 0x71 n.bytes)
    let type : OathType = if t.tag == 0x77 then hotp else totp
    (issuer, name, period) ← lift (parse_cred_id outside.decimal cred_id type)
    device_id ← reads outside override app (λ s. s.device_id)
    let credential : Credential = record {
      device_id = device_id;
      id = cred_id;
      issuer = issuer;
      name = name;
      oath_type = type;
      period = period;
      touch_required = some (t.tag == 0x7c);
    }
    code ← entry_code credential timestamp t
    calculate_entries timestamp ts (assign entries credential code)

  unfoldable pub calculate_all : Option ℕ → Io (Session D) (List (Credential × Option Code))
  calculate_all timestamp = do
    t ← now timestamp
    challenge ← lift (get_challenge t default_period)
    c ← lift (encoded 0x74 challenge)
    response ← send outside override app 0xa4 0 1 c
    ts ← lift (parse_list response)
    calculate_entries t ts []
