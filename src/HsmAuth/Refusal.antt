-- ===== src/HsmAuth/Refusal.antt =====
-- What becomes of a status word that a device refuses a management key with.
use yubikey_manager.Prelude.{
  ℕ, ◌+◌, ◌-◌, ◌≤◌, ◌<◌, ◌≡◌, ◌⊎◌, inl, inr, Bool-cases, refl, arith, Option, ◌++◌, length, ap, ◌∙◌,
}
use yubikey_manager.Core.Error.{Result, ok, err, invalid_pin, apdu_error}
use yubikey_manager.Core.Io.{continue, pure}
use yubikey_manager.Core.Text.{within}
use yubikey_manager.Core.Bytes.{Bytes}
use yubikey_manager.Core.Version.{Version}
use yubikey_manager.Core.Tlv.{pack}
use yubikey_manager.Core.Tlv.Fields.{small-IsTag, encoded-pack}
use yubikey_manager.SmartCard.Application.{Application}
use yubikey_manager.SmartCard.Retries.{on_refused}
use yubikey_manager.SmartCard.Retries.Refused.{retries_some, retries_none}
use yubikey_manager.HsmAuth.Data.{key_and}
use yubikey_manager.HsmAuth.Session.{send_guarded, put_management_key}

on_refused_pin :
    (resp : Bytes) (n : ℕ)
    → n < 16
    → on_refused {A = Bytes} (err (apdu_error resp (0x63c0 + n))) ≡ err (invalid_pin n)
unfolding on_refused
on_refused_pin resp n h = rw (retries_some n h, on_refused) refl

on_refused_other :
    (resp : Bytes) (sw : ℕ)
    → sw < 65536
    → (sw < 0x63c0) ⊎ (0x63d0 ≤ sw)
    → on_refused {A = Bytes} (err (apdu_error resp sw)) ≡ err (apdu_error resp sw)
unfolding on_refused
on_refused_other resp sw h o = rw (retries_none sw h o, on_refused) refl

-- What is returned is left out, and the state stays.
then_done :
    {D : Type 0} (r : Result Bytes) (e : D)
    → continue {D = D} {A = Bytes} {B = Unit} (r, e) (λ x. pure tt)
      ≡ (elim r [ ok b ↦ (ok tt, e) | err x ↦ (err x, e) ])
then_done (ok b) e = refl
then_done (err x) e = refl

module _ {D : Type 0} (override : Option Version) (app : Application D) (version : Version) where
  outcome :
      (key new : Bytes) (d e : D) (r : Result Bytes)
      → length key ≡ 16
      → length new ≡ 16
      → app.send_apdu 0 0x08 0 0 (pack 0x7b key ++ pack 0x7b new) d ≡ (r, e)
      → put_management_key override app version key new d
        ≡ (elim (on_refused r) [ ok b ↦ (ok tt, e) | err x ↦ (err x, e) ])
  unfolding put_management_key key_and send_guarded
  outcome key new d e r k n sent =
      rw (k, n)
        (rw (encoded-pack 0x7b key (small-IsTag 0x7b (omega arith)) (omega arith)) (
          rw (encoded-pack 0x7b new (small-IsTag 0x7b (omega arith)) (omega arith))
            (rw sent (then_done (on_refused r) e))))

  -- Where the device refuses `put_management_key` with a status word of two bytes, the call
  -- raises `InvalidPinError` with the attempts that remain for 63C0 to 63CF, and the `ApduError`
  -- itself for any other. Both keys have 16 bytes.
  pub put_management_key_lem :
      (key new resp : Bytes) (sw : ℕ) (d e : D)
      → length key ≡ 16
      → length new ≡ 16
      → sw < 65536
      → app.send_apdu 0 0x08 0 0 (pack 0x7b key ++ pack 0x7b new) d ≡ (err (apdu_error resp sw), e)
      → ((n : ℕ) × (n < 16)
          × (sw ≡ 0x63c0 + n)
          × (put_management_key override app version key new d ≡ (err (invalid_pin n), e)))
        ⊎ (((sw < 0x63c0) ⊎ (0x63d0 ≤ sw))
            × (put_management_key override app version key new d ≡ (err (apdu_error resp sw), e)))
  put_management_key_lem key new resp sw d e k n h sent =
      elim (Bool-cases (within 0x63c0 sw 0x63cf)) [
        | inl w ↦
            let m : ℕ = sw - 0x63c0 in
            let p : sw ≡ 0x63c0 + m = ground (arith, w) in
            inl (
              m,
              ground (arith, w),
              p,
              outcome key new d e (err (apdu_error resp sw)) k n sent
                  ∙ rw
                      (ap (λ x. on_refused {A = Bytes} (err (apdu_error resp x))) p
                        ∙ on_refused_pin resp m (ground (arith, w)))
                      refl,
            )
        | inr w ↦
            let o : (sw < 0x63c0) ⊎ (0x63d0 ≤ sw) = ground (arith, w) in
            inr (
              o,
              outcome key new d e (err (apdu_error resp sw)) k n sent
                  ∙ rw (on_refused_other resp sw h o) refl,
            )
      ]
