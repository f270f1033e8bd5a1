-- ===== src/Oath/Session/Locking.antt =====
-- `OathSession.validate`: only a device that has the key unlocks the session.
use yubikey_manager.Prelude.{
  ◌^◌, ◌<◌, ◌≡◌, ◌≢◌, ◌⊎◌, refl, ◌∙◌, arith, false, Option, none, ◌++◌, length, Bool-cases, inl,
  inr, if◌then◌else◌,
}
use yubikey_manager.Core.Error.{ok, err, bad_response}
use yubikey_manager.Core.Bytes.{Bytes, bytes_eq}
use yubikey_manager.Core.Bytes.Equality.{bytes_eq_sound, bytes_eq_differs}
use yubikey_manager.Core.Version.{Version}
use yubikey_manager.Core.Tlv.{pack}
use yubikey_manager.Core.Tlv.Fields.{small-IsTag, encoded-pack, unpack-pack}
use yubikey_manager.SmartCard.Application.{Application}
use yubikey_manager.Oath.Data.{Outside}
use yubikey_manager.Oath.Session.{Session, message, validate}

module _ {D : Type 0} (outside : Outside D) (override : Option Version) (app : Application D) where
  -- An exchange in `validate` with a key: the challenge that was drawn, the answer to what was sent,
  -- and the state of the world after it. All sizes are sizes that Python has.
  pub record Exchange (s : Session D) (key challenge answer : Bytes) (after : D) : Type 0 where
    pub drawn : D
    pub draws : outside.urandom 8 s.world ≡ (challenge, drawn)
    pub answers :
        app.send_apdu 0 0xa3 0 0
          (pack 0x75 (outside.hmac_sha1 key (message s.challenge)) ++ pack 0x74 challenge)
          drawn
        ≡ (ok (pack 0x75 answer), after)
    pub response_size : length (outside.hmac_sha1 key (message s.challenge)) < 2 ^ 63
    pub challenge_size : length challenge < 2 ^ 63
    pub answer_size : length answer < 2 ^ 63

  validate_outcome :
      (s : Session D) (key challenge answer : Bytes) (after : D)
      → Exchange s key challenge answer after
      → validate outside override app key s ≡ (
          if bytes_eq answer (outside.hmac_sha1 key challenge)
          then (ok tt, record s { world = after; challenge = none; neo_unlock_workaround = false })
          else (err bad_response, record s { world = after }))
  unfolding validate
  validate_outcome s key challenge answer after x = rw x.draws (
      rw
        (encoded-pack 0x75 (outside.hmac_sha1 key (message s.challenge))
          (small-IsTag 0x75 (omega arith)) x.response_size)
        (rw (encoded-pack 0x74 challenge (small-IsTag 0x74 (omega arith)) x.challenge_size) (
          rw x.answers (
            rw (unpack-pack 0x75 0x75 answer (small-IsTag 0x75 (omega arith)) x.answer_size)
              (elim (Bool-cases (bytes_eq answer (outside.hmac_sha1 key challenge))) [
                | inl e ↦ rw e refl
                | inr e ↦ rw e refl
              ])))))

  -- `validate` unlocks the session if the device's answer is the HMAC of the challenge that was
  -- drawn, and raises `BadResponseError`, leaving all attributes as they were, if it is not. The
  -- device answers the APDU with a response field, and all values are shorter than 2 ^ 63.
  pub validate_lem :
      (s : Session D) (key challenge answer : Bytes) (after : D)
      → Exchange s key challenge answer after
      → ((answer ≡ outside.hmac_sha1 key challenge)
          × (validate outside override app key s ≡ (
            ok tt,
            record s { world = after; challenge = none; neo_unlock_workaround = false },
          )))
        ⊎ ((answer ≢ outside.hmac_sha1 key challenge)
            × (validate outside override app key s
                ≡ (err bad_response, record s { world = after })))
  validate_lem s key challenge answer after x =
      elim (Bool-cases (bytes_eq answer (outside.hmac_sha1 key challenge))) [
        | inl e ↦ inl (
          bytes_eq_sound answer (outside.hmac_sha1 key challenge) e,
          validate_outcome s key challenge answer after x ∙ rw e refl,
        )
        | inr e ↦ inr (
          bytes_eq_differs answer (outside.hmac_sha1 key challenge) e,
          validate_outcome s key challenge answer after x ∙ rw e refl,
        )
      ]
