-- ===== src/Piv/Management/Resetting.antt =====
-- `PivSession.reset` ends on a device that counts wrong attempts down, with the PIN and PUK blocked.
use yubikey_manager.Prelude.{ℕ, suc, ◌+◌, ◌<◌, ◌≡◌, Option, List, [], ◌∷◌, replicate}
use yubikey_manager.Core.Error.{ok, err, invalid_pin, apdu_error}
use yubikey_manager.Core.Io.{Io}
use yubikey_manager.Core.Bytes.{Bytes}
use yubikey_manager.Core.Version.{Version}
use yubikey_manager.Core.Tlv.Fields.{pack_all}
use yubikey_manager.SmartCard.Application.{Application}
use yubikey_manager.Piv.Types.{ManagementKeyType, management_key_code}
use yubikey_manager.Piv.Session.{Session}

module _ {D : Type 0} (override : Option Version) (app : Application D) where
  -- An attempt that fails and takes one from a counter, in states of a kind.
  abbrev pub Falls : Io (Session D) Unit → (Session D → ℕ) → (Session D → Type 0) → Type 0
  Falls attempt counter Kind =
      (s : Session D) (n : ℕ)
      → Kind s
      → counter s ≡ suc n
      → (t : Session D) × (attempt s ≡ (err (invalid_pin n), t)) × (counter t ≡ n) × Kind t

  -- What a device tells of a management key of a type.
  abbrev pub key_fields : ManagementKeyType → List (ℕ × Bytes)
  key_fields type = (0x01, management_key_code type ∷ []) ∷ (0x02, 0 ∷ 1 ∷ []) ∷ (0x05, 1 ∷ []) ∷ []

  -- A device that counts wrong PINs and PUKs down, tells the attempts that remain, has no biometrics,
  -- and lets itself be reset when no attempts remain; `kind` is the type of its management key.
  pub record Card (pin puk : D → ℕ) (kind : D → ManagementKeyType) : Type 0 where
    pub wrong_pin :
        (d : D) (n : ℕ)
        → pin d ≡ suc n
        → (e : D) × (app.send_apdu 0 0x20 0 0x80 (replicate 8 0xff) d
            ≡ (err (apdu_error [] (0x63c0 + n)), e))
          × (pin e ≡ n)
          × (puk e ≡ puk d)
    pub wrong_puk :
        (d : D) (n : ℕ)
        → puk d ≡ suc n
        → (e : D) × (app.send_apdu 0 0x2c 0 0x80 (replicate 16 0xff) d
            ≡ (err (apdu_error [] (0x63c0 + n)), e))
          × (puk e ≡ n)
          × (pin e ≡ pin d)
    pub pin_metadata :
        (d : D)
        → app.send_apdu 0 0xf7 0 0x80 [] d
          ≡ (ok (pack_all ((0x05, 0 ∷ []) ∷ (0x06, 3 ∷ pin d ∷ []) ∷ [])), d)
    pub puk_metadata :
        (d : D)
        → app.send_apdu 0 0xf7 0 0x81 [] d
          ≡ (ok (pack_all ((0x05, 0 ∷ []) ∷ (0x06, 3 ∷ puk d ∷ []) ∷ [])), d)
    pub no_biometrics : (d : D) → app.send_apdu 0 0xf7 0 0x96 [] d ≡ (err (apdu_error [] 0x6d00), d)
    pub resets :
        (d : D) → pin d ≡ 0 → puk d ≡ 0 → (e : D) × (app.send_apdu 0 0xfb 0 0 [] d ≡ (ok [], e))
    pub key_metadata :
        (d : D) → app.send_apdu 0 0xf7 0 0x9b [] d ≡ (ok (pack_all (key_fields (kind d))), d)

  module _ (pin puk : D → ℕ) (kind : D → ManagementKeyType) (card : Card pin puk kind) where
    -- The PUK's attempts, and the version of the session, that stay.
    abbrev PinKind : ℕ → Version → Session D → Type 0
    PinKind k v s = (pin s.world < 16) × (puk s.world ≡ k) × (s.version ≡ v)

    abbrev PukKind : Version → Session D → Type 0
    PukKind v s = (puk s.world < 16) × (pin s.world ≡ 0) × (s.version ≡ v)
