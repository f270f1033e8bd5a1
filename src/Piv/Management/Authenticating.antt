-- ===== src/Piv/Management/Authenticating.antt =====
-- `PivSession.authenticate`: a device is accepted only where it encrypts the challenge with the key.
use yubikey_manager.Prelude.{
  ℕ, ◌%◌, ◌^◌, ◌<◌, ◌≡◌, ◌≢◌, ◌⊎◌, refl, sym, ◌∙◌, arith, Option, [], ◌++◌, if◌then◌else◌, length,
  Bool-cases, inl, inr,
}
use yubikey_manager.Core.Error.{ok, err, bad_response}
use yubikey_manager.Core.Bytes.{Bytes, bytes_eq}
use yubikey_manager.Core.Bytes.Equality.{bytes_eq_sound, bytes_eq_differs}
use yubikey_manager.Core.Version.{Version}
use yubikey_manager.Core.Tlv.{pack, unpack_inner}
use yubikey_manager.Core.Tlv.Fields.{encoded-pack, unpack-pack, small-IsTag}
use yubikey_manager.SmartCard.Application.{Application}
use yubikey_manager.Piv.Types.{management_key_code, challenge_len}
use yubikey_manager.Piv.Session.{Session}
use yubikey_manager.Piv.Management.{Outside, authenticate}

abbrev pub IsShort : Bytes → Type 0
IsShort b = length b < 2 ^ 63

-- A value in a field in the field of an authentication.
abbrev pub nested : ℕ → Bytes → Bytes
nested tag v = pack 0x7c (pack tag v)

unpack_inner-nested :
    (tag : ℕ) (v : Bytes)
    → (tag < 256) × (tag % 32 < 31)
    → IsShort v
    → IsShort (pack tag v)
    → unpack_inner 0x7c tag (nested tag v) ≡ ok v
unfolding unpack_inner
unpack_inner-nested tag v small short long =
    rw (unpack-pack 0x7c 0x7c (pack tag v) (small-IsTag 0x7c (omega arith)) long)
      (rw (unpack-pack tag tag v (small-IsTag tag small) short) (ground arith))

module _ {D : Type 0} (outside : Outside D) (override : Option Version) (app : Application D) where
  -- The messages of an authentication with a key: the device's witness, the challenge that is drawn,
  -- the witness decrypted, the challenge encrypted, and what the device answers.
  pub record Exchange (s : Session D) (key answer expected : Bytes) (after : D) : Type 0 where
    pub first : D
    pub second : D
    pub witness : Bytes
    pub challenge : Bytes
    pub decrypted : Bytes
    pub asks :
        app.send_apdu 0 0x87
          (management_key_code s.management_key_type)
          0x9b
          (nested 0x80 [])
          s.world
        ≡ (ok (nested 0x80 witness), first)
    pub draws : outside.urandom (challenge_len s.management_key_type) first ≡ (challenge, second)
    pub decrypts : outside.decrypt s.management_key_type key witness ≡ ok decrypted
    pub answers :
        app.send_apdu 0 0x87
          (management_key_code s.management_key_type)
          0x9b
          (pack 0x7c (pack 0x80 decrypted ++ pack 0x81 challenge))
          second
        ≡ (ok (nested 0x82 answer), after)
    pub encrypts : outside.encrypt s.management_key_type key challenge ≡ ok expected
    pub short_witness : IsShort witness × IsShort (pack 0x80 witness)
    pub short_empty : IsShort (pack 0x80 [])
    pub short_proof :
        IsShort decrypted × IsShort challenge × IsShort (pack 0x80 decrypted ++ pack 0x81 challenge)
    pub short_answer : IsShort answer × IsShort (pack 0x82 answer)

  outcome :
      (s : Session D) (key answer expected : Bytes) (after : D)
      → Exchange s key answer expected after
      → authenticate outside override app key s ≡ (
        (if bytes_eq expected answer then ok tt else err bad_response),
        record s { world = after },
      )
  unfolding authenticate
  outcome s key answer expected after x =
      rw (encoded-pack 0x80 [] (small-IsTag 0x80 (omega arith)) (omega arith)) (
        rw (encoded-pack 0x7c (pack 0x80 []) (small-IsTag 0x7c (omega arith)) x.short_empty) (
          rw x.asks (
            rw
              (unpack_inner-nested 0x80 x.witness (omega arith) x.short_witness.0 x.short_witness.1)
              (rw x.draws (
                rw x.decrypts (
                  rw
                    (encoded-pack 0x80 x.decrypted (small-IsTag 0x80 (omega arith)) x.short_proof.0)
                    (rw
                      (encoded-pack 0x81 x.challenge (small-IsTag 0x81 (omega arith))
                        x.short_proof.1)
                      (rw
                        (encoded-pack 0x7c (pack 0x80 x.decrypted ++ pack 0x81 x.challenge)
                          (small-IsTag 0x7c (omega arith)) x.short_proof.2)
                        (rw x.answers (
                          rw
                            (unpack_inner-nested 0x82 answer (omega arith) x.short_answer.0
                              x.short_answer.1)
                            (rw x.encrypts (elim (Bool-cases (bytes_eq expected answer)) [
                              | inl e ↦ rw e refl
                              | inr e ↦ rw e refl
                            ]))))))))))))

  -- `authenticate` succeeds if the device's answer is the challenge that was drawn, encrypted
  -- with the management key, and raises `BadResponseError` if it is not. The device gives a
  -- witness and answers with a response field, the cipher takes the key and the texts, and all
  -- values are shorter than 2 ^ 63.
  pub authenticate_lem :
      (s : Session D) (key answer expected : Bytes) (after : D)
      → Exchange s key answer expected after
      → ((answer ≡ expected)
          × (authenticate outside override app key s ≡ (ok tt, record s { world = after })))
        ⊎ ((answer ≢ expected)
            × (authenticate outside override app key s
                ≡ (err bad_response, record s { world = after })))
  authenticate_lem s key answer expected after x = elim (Bool-cases (bytes_eq expected answer)) [
    | inl e ↦
        inl (
          sym (bytes_eq_sound expected answer e),
          outcome s key answer expected after x ∙ rw e refl,
        )
    | inr e ↦ inr (
      λ same. bytes_eq_differs expected answer e (sym same),
      outcome s key answer expected after x ∙ rw e refl,
    )
  ]
