-- ===== src/YubiOtp/Slot/Built.antt =====
-- Whatever the constructors and the chained methods of `SlotConfiguration` make can be written.
use yubikey_manager.Prelude.{
  ℕ, ◌≤◌, ◌≡◌, subst, not, Option, arith, ltb, Bool-cases, inl, inr, length, take, drop,
  length-take, length-drop, length-replicate, All, All-replicate, All-take, All-drop,
}
use yubikey_manager.Core.Error.{Result, ok, not_supported, ◌>>=◌}
use yubikey_manager.Core.Bytes.{Bytes, IsByte, ljust}
use yubikey_manager.YubiOtp.Config.{shorten_hmac_key}
use yubikey_manager.YubiOtp.Config.Checked.{
  IsAccCode, IsWritable, build_config-IsWritable, length-ljust, All-ljust,
}
use yubikey_manager.YubiOtp.Slot.{
  Slot, Kind, Call, init_slot, init_keyboard, with_credentials, new_hmac_sha1, new_hotp,
  new_static_password, new_yubi_otp, new_static_ticket, new_update, invoke, get_config,
}
use yubikey_manager.YubiOtp.Slot.Calls.{IsCall, invoke-Gives}
use yubikey_manager.YubiOtp.Slot.Valid.{
  IsValid, Gives, Gives-ok, Gives-err, Gives-bind, Gives-require, update_all-Gives, init_slot-Gives,
  init_keyboard-Gives, with_parts, with_credentials-Gives, with_hmac_key-IsValid,
}

-- A hash gives 20 bytes.
module _ (sha1 : Bytes → Bytes)
    (digest : (k : Bytes) → All IsByte (sha1 k) × (length (sha1 k) ≡ 20)) where
  shortened :
      (k : Bytes) (f : Bytes → Result Slot)
      → All IsByte k
      → ((short : Bytes) → All IsByte short → length short ≤ 20 → Gives (f short))
      → Gives (shorten_hmac_key sha1 k >>= f)
  unfolding shorten_hmac_key
  shortened k f h g = elim (Bool-cases (ltb 64 (length k))) [
    | inl p ↦ rw p (g (sha1 k) ((digest k).0) (omega (arith, (digest k).1)))
    | inr p ↦ rw p (elim (Bool-cases (ltb 20 (length k))) [
      | inl q ↦ rw q (Gives-err not_supported)
      | inr q ↦ rw q (g k h (ground (arith, q)))
    ])
  ]

  new_hmac_sha1-Gives : (k : Bytes) → All IsByte k → Gives (new_hmac_sha1 sha1 k)
  unfolding new_hmac_sha1
  new_hmac_sha1-Gives k h =
      Gives-bind (init_slot Kind.hmac_sha1) _ (init_slot-Gives Kind.hmac_sha1) (λ s v.
        shortened k _ h
          (λ short b fits. update_all-Gives _ _ (with_hmac_key-IsValid s v short b fits)))

  new_hotp-Gives : (k : Bytes) → All IsByte k → Gives (new_hotp sha1 k)
  unfolding new_hotp
  new_hotp-Gives k h =
      Gives-bind (init_keyboard Kind.hotp) _ (init_keyboard-Gives Kind.hotp) (λ s v.
        shortened k _ h
          (λ short b fits. update_all-Gives _ _ (with_hmac_key-IsValid s v short b fits)))

padded_parts-IsValid :
    (s : Slot)
    → IsValid s
    → (codes : Bytes) → All IsByte codes
    → length codes ≤ 38
    → IsValid (record s {
      fixed = take 16 (ljust 38 0 codes);
      uid = take 6 (drop 16 (ljust 38 0 codes));
      key = drop 22 (ljust 38 0 codes);
    })
padded_parts-IsValid s v codes h fits =
    let p : Bytes = ljust 38 0 codes in
    let b = All-ljust 38 codes h in
    let l = length-ljust 38 0 codes fits in
    with_parts s v _ _ _ (All-take IsByte 16 p b) (omega (arith, length-take 16 p, l))
      (All-take IsByte 6 (drop 16 p) (All-drop IsByte 16 p b))
      (omega (arith, length-take 6 (drop 16 p), length-drop 16 p, l)) (All-drop IsByte 22 p b)
      (omega (arith, length-drop 22 p, l))

new_static_password-Gives : (codes : Bytes) → All IsByte codes → Gives (new_static_password codes)
unfolding new_static_password
new_static_password-Gives codes h =
    Gives-bind (init_keyboard Kind.static_password) _ (init_keyboard-Gives Kind.static_password)
      (λ s v.
        Gives-require (not (ltb 38 (length codes))) not_supported _
          (λ p. update_all-Gives _ _ (padded_parts-IsValid s v codes h (ground (arith, p)))))

new_yubi_otp-Gives :
    (fixed uid key : Bytes)
    → All IsByte fixed
    → All IsByte uid
    → All IsByte key
    → Gives (new_yubi_otp fixed uid key)
unfolding new_yubi_otp
new_yubi_otp-Gives fixed uid key a b c =
    Gives-bind (init_keyboard Kind.yubi_otp) _ (init_keyboard-Gives Kind.yubi_otp)
      (λ s v. with_credentials-Gives s v fixed uid key a b c)

new_static_ticket-Gives :
    (fixed uid key : Bytes)
    → All IsByte fixed
    → All IsByte uid
    → All IsByte key
    → Gives (new_static_ticket fixed uid key)
unfolding new_static_ticket
new_static_ticket-Gives fixed uid key a b c =
    Gives-bind (init_keyboard Kind.static_ticket) _ (init_keyboard-Gives Kind.static_ticket) (λ s v.
      Gives-bind (with_credentials fixed uid key s) _
        (with_credentials-Gives s v fixed uid key a b c) (λ t w. update_all-Gives _ t w))

new_update-Gives : Gives new_update
unfolding new_update
new_update-Gives =
    Gives-bind (init_keyboard Kind.update) _ (init_keyboard-Gives Kind.update) (λ s v. Gives-ok _ (
      with_parts s v _ _ _ (All-replicate IsByte 16 0 (omega arith))
        (omega (arith, length-replicate {A = ℕ} 16 0)) (All-replicate IsByte 6 0 (omega arith))
        (length-replicate {A = ℕ} 6 0) (All-replicate IsByte 16 0 (omega arith))
        (length-replicate {A = ℕ} 16 0)))

-- Made by a constructor, and then by methods, none of which raised.
pub data Built (sha1 : Bytes → Bytes) : Slot → Type 0 where
  hmac_sha1 : (k : Bytes) {s : Slot} → All IsByte k → new_hmac_sha1 sha1 k ≡ ok s → Built sha1 s
  hotp : (k : Bytes) {s : Slot} → All IsByte k → new_hotp sha1 k ≡ ok s → Built sha1 s
  static_password :
      (codes : Bytes) {s : Slot}
      → All IsByte codes
      → new_static_password codes ≡ ok s
      → Built sha1 s
  yubi_otp :
      (fixed uid key : Bytes) {s : Slot}
      → All IsByte fixed
      → All IsByte uid
      → All IsByte key
      → new_yubi_otp fixed uid key ≡ ok s
      → Built sha1 s
  static_ticket :
      (fixed uid key : Bytes) {s : Slot}
      → All IsByte fixed
      → All IsByte uid
      → All IsByte key
      → new_static_ticket fixed uid key ≡ ok s
      → Built sha1 s
  update : {s : Slot} → new_update ≡ ok s → Built sha1 s
  called :
      (c : Call) (s : Slot) {t : Slot} → Built sha1 s → IsCall c → invoke c s ≡ ok t → Built sha1 t

given : (r : Result Slot) (s : Slot) → Gives r → r ≡ ok s → IsValid s
unfolding Gives
given r s g e = subst Gives e g

module _ (sha1 : Bytes → Bytes)
    (digest : (k : Bytes) → All IsByte (sha1 k) × (length (sha1 k) ≡ 20)) where
  Built-IsValid : (s : Slot) → Built sha1 s → IsValid s
  Built-IsValid s (Built.hmac_sha1 k h e) = given _ s (new_hmac_sha1-Gives sha1 digest k h) e
  Built-IsValid s (Built.hotp k h e) = given _ s (new_hotp-Gives sha1 digest k h) e
  Built-IsValid s (Built.static_password codes h e) =
      given _ s (new_static_password-Gives codes h) e
  Built-IsValid s (Built.yubi_otp fixed uid key a b c e) =
      given _ s (new_yubi_otp-Gives fixed uid key a b c) e
  Built-IsValid s (Built.static_ticket fixed uid key a b c e) =
      given _ s (new_static_ticket-Gives fixed uid key a b c) e
  Built-IsValid s (Built.update e) = given _ s new_update-Gives e
  Built-IsValid s (Built.called c t b h e) = given _ s (invoke-Gives t (Built-IsValid t b) c h) e

  -- After a constructor and any chain of calls that did not raise, `get_config`, with no access
  -- code or one of six bytes or none, gives 52 bytes that pass `check_crc`. `sha1` gives 20
  -- bytes, and what callers pass is bytes.
  pub get_config-IsWritable :
      (s : Slot) (acc : Option Bytes)
      → Built sha1 s
      → IsAccCode acc
      → (b : Bytes) × (get_config s acc ≡ ok b) × IsWritable b
  unfolding get_config
  get_config-IsWritable s acc built k =
      build_config-IsWritable s.fixed s.uid s.key s.ext_flags s.tkt_flags s.cfg_flags acc
        (Built-IsValid s built) k
