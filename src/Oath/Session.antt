-- ===== src/Oath/Session.antt =====
-- yubikit/oath.py: `OathSession`: its attributes, the opening, the reset and the access key.
pub mod Locking
use yubikey_manager.Prelude.{
  ℕ, zero, suc, ◌+◌, ◌-◌, Bool, true, false, not, ◌&&◌, ◌||◌, Option, none, some, List, [], ◌∷◌,
  ◌++◌, bit_and, bit_or, ltb, ◌==◌, if◌then◌else◌, length, take, drop, map,
}
use yubikey_manager.Core.Error.{
  Error, Result, ok, err, value_error, index_error, type_error, bad_response, not_supported,
  from_option,
}
use yubikey_manager.Core.Io.{Io, pure, raise, lift, ◌>>=◌, ◌>>◌}
use yubikey_manager.Core.Bytes.{Bytes, bytes_eq, byte_at, int2bytes, ljust, pack_b, pack_be32}
use yubikey_manager.Core.Dict.{Dict, get}
use yubikey_manager.Core.Text.{Text, encode}
use yubikey_manager.Core.Version.{Version, from_bytes, is_before, is_between, require_version}
use yubikey_manager.Core.Tlv.{Tlv, value, encoded, parse_list, parse_dict, unpack}
use yubikey_manager.SmartCard.Application.{Application}
use yubikey_manager.Oath.Credential.{
  HashAlgorithm, sha1, sha256, sha512, algorithm_code, OathType, hotp, totp, type_code, oath_type,
  is_totp, default_period, CredentialData, Credential, format_cred_id, get_id, parse_cred_id,
}
use yubikey_manager.Oath.Data.{Outside, parse_select, get_device_id, credential_fields, listed_all}
use yubikey_manager.Oath.Code.{Code, get_challenge, format_code}

-- The attributes of an `OathSession`, beside the state of the world.
pub record Session (D : Type 0) : Type 0 where
  pub world : D
  pub version : Version
  pub salt : Option Bytes
  pub challenge : Option Bytes
  pub uses_scp : Bool
  pub has_key : Bool
  pub device_id : Text
  pub neo_unlock_workaround : Bool

-- The property `locked`
unfoldable pub locked : {D : Type 0} → Session D → Bool
locked s = elim s.challenge [ none ↦ false | some c ↦ true ]

-- The message of an HMAC, where `None` is the empty one.
abbrev pub message : Option Bytes → Bytes
message none = []
message (some m) = m

abbrev pub aid : Bytes
aid = 0xa0 ∷ 0 ∷ 0 ∷ 5 ∷ 0x27 ∷ 0x21 ∷ 1 ∷ []

module _ {D : Type 0} (outside : Outside D) (override : Option Version) (app : Application D) where
  abbrev pub on_world : {A : Type 0} → Io D A → Io (Session D) A
  on_world m s = let (r, d) = m s.world in (r, record s { world = d })

  abbrev pub modify : (Session D → Session D) → Io (Session D) Unit
  modify f s = (ok tt, f s)

  abbrev pub reads : {A : Type 0} → (Session D → A) → Io (Session D) A
  reads f s = (ok (f s), s)

  abbrev pub send : ℕ → ℕ → ℕ → Bytes → Io (Session D) Bytes
  send ins p1 p2 body = on_world (app.send_apdu 0 ins p1 p2 body)

  abbrev pub random : ℕ → Io (Session D) Bytes
  random n = on_world (λ d. let (b, e) = outside.urandom n d in (ok b, e))

  -- `_parse_select(self.protocol.select(AID.OATH))`
  unfoldable pub select_oath : Io D (Version × Option Bytes × Option Bytes)
  select_oath = do response ← app.select aid; lift (parse_select response)

  -- `__init__`
  unfoldable pub new_session : Bool → Io D (Session D)
  new_session uses_scp = do
    (version, salt, challenge) ← select_oath
    if uses_scp
        then if is_between (5 ∷ 0 ∷ 0 ∷ []) version (5 ∷ 6 ∷ 3 ∷ [])
          then raise not_supported
          else app.init_scp
        else pure tt
    device_id ← lift (get_device_id outside salt)
    app.configure version
    λ d. (
      ok (record {
        world = d;
        version = version;
        salt = salt;
        challenge = challenge;
        uses_scp = uses_scp;
        has_key = elim challenge [ none ↦ false | some c ↦ true ];
        device_id = device_id;
        neo_unlock_workaround = not uses_scp && is_before version (3 ∷ 0 ∷ 0 ∷ []);
      }),
      d,
    )

  unfoldable pub reset : Io (Session D) Unit
  reset = do
    _ ← send 0x04 0xde 0xad []
    (version, salt, challenge) ← on_world select_oath
    modify (λ s. record s { salt = salt; challenge = challenge })
    scp ← reads (λ s. s.uses_scp)
    if scp then on_world app.init_scp else pure tt
    modify (λ s. record s { has_key = false })
    device_id ← lift (get_device_id outside salt)
    modify (λ s. record s { device_id = device_id })

  -- `derive_key`: the salt and the password go to PBKDF2.
  unfoldable pub derive_key : Text → Io (Session D) Bytes
  derive_key password = do
    passphrase ← lift (encode password)
    salt ← reads (λ s. s.salt)
    b ← lift (from_option type_error salt)
    pure (outside.pbkdf2_hmac passphrase b)

  unfoldable pub validate : Bytes → Io (Session D) Unit
  validate key = do
    old ← reads (λ s. s.challenge)
    challenge ← random 8
    r ← lift (encoded 0x75 (outside.hmac_sha1 key (message old)))
    c ← lift (encoded 0x74 challenge)
    resp ← send 0xa3 0 0 (r ++ c)
    answer ← lift (unpack 0x75 resp)
    if bytes_eq answer (outside.hmac_sha1 key challenge)
        then modify (λ s. record s { challenge = none; neo_unlock_workaround = false })
        else raise bad_response

  unfoldable pub set_key : Bytes → Io (Session D) Unit
  set_key key = do
    challenge ← random 8
    k ← lift (encoded 0x73 (int2bytes (bit_or (type_code totp) (algorithm_code sha1)) 0 ++ key))
    c ← lift (encoded 0x74 challenge)
    r ← lift (encoded 0x75 (outside.hmac_sha1 key challenge))
    _ ← send 0x03 0 0 (k ++ (c ++ r))
    modify (λ s. record s { has_key = true })
    workaround ← reads (λ s. s.neo_unlock_workaround)
    if workaround
        then (do
          (version, salt, new) ← on_world select_oath
          modify (λ s. record s { challenge = new })
          validate key)
        else pure tt

  unfoldable pub unset_key : Io (Session D) Unit
  unset_key = do
    k ← lift (encoded 0x73 [])
    _ ← send 0x03 0 0 k
    modify (λ s. record s { has_key = false })
