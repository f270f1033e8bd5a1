-- ===== src/Management/Session/Writing.antt =====
-- What `write_device_config` and `set_mode` send.
use yubikey_manager.Prelude.{
  ℕ, ◌+◌, ◌/◌, ◌%◌, ◌<◌, ◌≡◌, refl, arith, false, Option, none, some, [], ◌∷◌, bit_or, ◌==◌,
  if◌then◌else◌, ==_iff, Bool-cases, inl, inr,
}
use yubikey_manager.Prelude.Bits.{all_below, all_below_sound}
use yubikey_manager.Core.Error.{Result, err, value_error}
use yubikey_manager.Core.Io.{Io}
use yubikey_manager.Core.Bytes.{Bytes}
use yubikey_manager.Core.Bytes.Packing.{pack_b_byte, pack_le16_pair}
use yubikey_manager.Core.Version.{Version, is_since}
use yubikey_manager.Management.Session.{Backend, mode_code, set_mode, set_mode_legacy}

eject_flag : (code : ℕ) → code < 128 → bit_or code 0x80 ≡ code + 128
eject_flag code h =
    (==_iff _ _).0
      (all_below_sound 128 (λ c. bit_or c 0x80 == c + 128) code (unfold all_below in refl) h)

abbrev eject_value : Option ℕ → ℕ
eject_value none = 0
eject_value (some t) = t

module _ {D : Type 0} (override : Option Version) (backend : Backend D) where
  abbrev send_mode : Bytes → Io D Unit
  send_mode = backend.set_mode

  -- What reaches the backend, or the error.
  abbrev sent : Option ℕ → ℕ → ℕ → ℕ → D → Result (Unit {0}) × D
  sent none interfaces code timeout d = send_mode (code ∷ timeout ∷ 0 ∷ 0 ∷ []) d
  sent (some t) interfaces code timeout d =
      if interfaces == 4
      then send_mode ((code + 128) ∷ timeout ∷ (t % 256) ∷ (t / 256) ∷ []) d
      else (err value_error, d)

  -- Before version 5.0.0 `set_mode` sends four bytes, the timeout in little endian, or raises
  -- `ValueError`: for touch-eject the code has bit 7 set, which only the CCID mode has. The code
  -- is below 128, and the timeouts fit one and two bytes.
  pub set_mode-legacy :
      (fuel code interfaces timeout : ℕ) (eject : Option ℕ) (d : D)
      → is_since backend.version (5 ∷ 0 ∷ 0 ∷ []) ≡ false
      → code < 128
      → timeout < 256
      → eject_value eject < 65536
      → set_mode override backend fuel
          (record { code = code; interfaces = interfaces })
          timeout
          eject
          d
        ≡ sent eject interfaces code timeout d
  unfolding set_mode set_mode_legacy mode_code
  set_mode-legacy fuel code interfaces timeout none d v a b c = rw v (
      rw (pack_b_byte code (omega arith))
        (rw (pack_b_byte timeout b) (rw (pack_le16_pair 0 (omega arith)))))
  set_mode-legacy fuel code interfaces timeout (some t) d v a b c =
      elim (Bool-cases (interfaces == 4)) [
        | inl p ↦ rw v (
            rw p (
              rw (eject_flag code a) (
                rw (pack_b_byte (code + 128) (omega arith))
                  (rw (pack_b_byte timeout b) (rw (pack_le16_pair t c))))))
        | inr p ↦ rw v (rw p)
      ]
