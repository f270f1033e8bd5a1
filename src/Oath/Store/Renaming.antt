-- ===== src/Oath/Store/Renaming.antt =====
-- `OathSession.rename_credential`: the new id has the period of the old one.
use yubikey_manager.Prelude.{
  ℕ, ◌^◌, ◌≤◌, ◌<◌, ◌≡◌, refl, subst, arith, Option, none, [], ◌∷◌, ◌++◌, length, All,
}
use yubikey_manager.Core.Error.{ok}
use yubikey_manager.Core.Bytes.{Bytes}
use yubikey_manager.Core.Version.{Version, require_version}
use yubikey_manager.Core.Text.{Text}
use yubikey_manager.Core.Text.Utf8.{IsChar}
use yubikey_manager.Core.Tlv.{pack}
use yubikey_manager.Core.Tlv.Fields.{small-IsTag, encoded-pack}
use yubikey_manager.SmartCard.Application.{Application}
use yubikey_manager.Oath.Credential.{
  totp, default_period, period_prefix, issuer_prefix, format_cred_id, parse_cred_id, closed,
  no_newline, is_decimal,
}
use yubikey_manager.Oath.Credential.Ids.{Passes, IsSplit, IsDecimal, parse_cred_id-format_cred_id}
use yubikey_manager.Oath.Data.{Outside}
use yubikey_manager.Oath.Session.{Session}
use yubikey_manager.Oath.Store.{rename_credential}

-- A name and an issuer, with a period, that an id keeps apart.
pub record IsLegible (decimal : ℕ → Option ℕ) (issuer : Option Text) (name : Text) (period : ℕ)
    : Type 0 where
  pub split : IsSplit issuer name
  pub one_line : Passes no_newline name
  pub some_name : 1 ≤ length name
  pub chars : All IsChar (period_prefix totp period ++ (issuer_prefix issuer ++ name))
  pub no_period :
      period ≡ default_period → closed (is_decimal decimal) 47 (issuer_prefix issuer ++ name) ≡ none

parse_back :
    (decimal : ℕ → Option ℕ)
    → IsDecimal decimal
    → (issuer : Option Text) (name : Text) (period : ℕ) (b : Bytes)
    → IsLegible decimal issuer name period
    → format_cred_id issuer name totp period ≡ ok b
    → parse_cred_id decimal b totp ≡ ok (issuer, name, period)
parse_back decimal sound issuer name period b x e =
    let (c, f, p) =
      parse_cred_id-format_cred_id decimal sound issuer name x.split x.one_line x.some_name totp
        period x.chars x.no_period in
    subst (λ d. parse_cred_id decimal d totp ≡ ok (issuer, name, period)) (cc (f, e)) p

module _ {D : Type 0} (outside : Outside D) (override : Option Version) (app : Application D) where
  -- `rename_credential` sends the new id, with the new issuer and name, and the period that the
  -- old id has. The version of the session is accepted for renaming, the old id is one that
  -- `_parse_cred_id` reads back, both ids can be encoded and are shorter than 2 ^ 63, and the
  -- device accepts the APDU.
  pub rename_credential_lem :
      (s : Session D) (issuer : Option Text) (name : Text) (period : ℕ) (old : Bytes)
      (new_issuer : Option Text) (new_name : Text) (new : Bytes) (resp : Bytes) (after : D)
      → IsDecimal outside.decimal
      → IsLegible outside.decimal issuer name period
      → require_version override s.version (5 ∷ 3 ∷ 1 ∷ []) ≡ ok tt
      → format_cred_id issuer name totp period ≡ ok old
      → format_cred_id new_issuer new_name totp period ≡ ok new
      → length old < 2 ^ 63
      → length new < 2 ^ 63
      → app.send_apdu 0 0x05 0 0 (pack 0x71 old ++ pack 0x71 new) s.world ≡ (ok resp, after)
      → rename_credential outside override app old new_name new_issuer s
        ≡ (ok new, record s { world = after })
  unfolding rename_credential
  rename_credential_lem s issuer name period old new_issuer new_name new resp after sound x v e f l
        m sent =
      rw v (
        rw (parse_back outside.decimal sound issuer name period old x e) (
          rw f (
            rw (encoded-pack 0x71 old (small-IsTag 0x71 (omega arith)) l)
              (rw (encoded-pack 0x71 new (small-IsTag 0x71 (omega arith)) m) (rw sent refl)))))
