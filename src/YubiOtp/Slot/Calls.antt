-- ===== src/YubiOtp/Slot/Calls.antt =====
-- The chained methods of `SlotConfiguration` keep a slot valid.
use yubikey_manager.Prelude.{
  ℕ, ◌/◌, ◌%◌, ◌<◌, ◌≡◌, Bool, true, not, ◌&&◌, [], ◌∷◌, ◌++◌, arith, ◌==◌, leb, ltb, Bool-cases,
  inl, inr, length, take, length-append, length-take, All, All-append, All-take,
}
use yubikey_manager.Core.Error.{err, value_error}
use yubikey_manager.Core.Bytes.{Bytes, IsByte}
use yubikey_manager.Core.Bytes.Packing.{pack_be16_pair}
use yubikey_manager.YubiOtp.Flags.{tkt, TktFlag}
use yubikey_manager.YubiOtp.Slot.{
  Slot, Kind, Call, update_flags, invoke, set_imf, set_token_id, set_protect_slot2,
}
use yubikey_manager.YubiOtp.Slot.Valid.{
  IsValid, Gives, Gives-ok, Gives-err, Gives-require, update_flags-Gives, update_all-Gives,
  with_parts,
}

imf_fits : (n : ℕ) → (n % 16 == 0 && leb n 0xffff0) ≡ true → n / 16 < 65536
imf_fits n p = ground (arith, p)

-- What a caller passes is bytes; a token is the one argument of a call that holds some.
abbrev pub IsCall : Call → Type 0
IsCall (Call.token_id token m n) = All IsByte token
IsCall _ = Unit

module _ (s : Slot) (v : IsValid s) where
  set_imf-Gives : (n : ℕ) → Gives (set_imf n s)
  unfolding set_imf
  set_imf-Gives n = elim (Bool-cases (n % 16 == 0 && leb n 0xffff0)) [
    | inl p ↦ rw p (
        rw (pack_be16_pair (n / 16) (imf_fits n p)) (
          Gives-ok _ (
            with_parts s v s.fixed (take 4 s.uid ++ (n / 16 / 256 ∷ n / 16 % 256 ∷ [])) s.key
              v.fixed_bytes v.fixed_fits
              (All-append IsByte (take 4 s.uid) _ (All-take IsByte 4 s.uid v.uid_bytes)
                (omega (arith, imf_fits n p), (omega arith, tt)))
              (omega (
                arith,
                length-append (take 4 s.uid) (n / 16 / 256 ∷ n / 16 % 256 ∷ []),
                length-take 4 s.uid,
                v.uid_fits,
              ))
              v.key_bytes v.key_fits)))
    | inr p ↦ rw p (Gives-err value_error)
  ]

  set_token_id-Gives :
      (token : Bytes) (m n : Bool) → All IsByte token → Gives (set_token_id token m n s)
  unfolding set_token_id
  set_token_id-Gives token m n h = Gives-require (not (ltb 16 (length token))) value_error _ (λ p.
      update_all-Gives _ _ (
        with_parts s v token s.uid s.key h (ground (arith, p)) v.uid_bytes v.uid_fits v.key_bytes
          v.key_fits))

  set_protect_slot2-Gives : (on : Bool) → Gives (set_protect_slot2 on s)
  unfolding set_protect_slot2
  set_protect_slot2-Gives on =
      elim s.kind
        as (λ k. Gives (elim k [
          | Kind.update ↦ err value_error
          | _ ↦ update_flags (tkt TktFlag.protect_cfg2) on s
        ])) [
          | Kind.update ↦ Gives-err value_error
          | _ ↦ update_flags-Gives (tkt TktFlag.protect_cfg2) on s v
        ]

  pub invoke-Gives : (c : Call) → IsCall c → Gives (invoke c s)
  unfolding invoke
  invoke-Gives (Call.serial_api_visible on) h = update_flags-Gives _ on s v
  invoke-Gives (Call.serial_usb_visible on) h = update_flags-Gives _ on s v
  invoke-Gives (Call.allow_update on) h = update_flags-Gives _ on s v
  invoke-Gives (Call.dormant on) h = update_flags-Gives _ on s v
  invoke-Gives (Call.invert_led on) h = update_flags-Gives _ on s v
  invoke-Gives (Call.protect_slot2 on) h = set_protect_slot2-Gives on
  invoke-Gives (Call.require_touch on) h = update_flags-Gives _ on s v
  invoke-Gives (Call.lt64 on) h = update_flags-Gives _ on s v
  invoke-Gives (Call.append_cr on) h = update_flags-Gives _ on s v
  invoke-Gives (Call.fast_trigger on) h = update_flags-Gives _ on s v
  invoke-Gives (Call.use_numeric on) h = update_flags-Gives _ on s v
  invoke-Gives (Call.pacing ten twenty) h = update_all-Gives _ s v
  invoke-Gives (Call.digits8 on) h = update_flags-Gives _ on s v
  invoke-Gives (Call.token_id token m n) h = set_token_id-Gives token m n h
  invoke-Gives (Call.imf n) h = set_imf-Gives n
  invoke-Gives (Call.tabs before first second) h = update_all-Gives _ s v
  invoke-Gives (Call.delay first second) h = update_all-Gives _ s v
  invoke-Gives (Call.send_reference on) h = update_flags-Gives _ on s v
  invoke-Gives (Call.short_ticket on) h = update_flags-Gives _ on s v
  invoke-Gives (Call.manual_update on) h = update_flags-Gives _ on s v
  invoke-Gives (Call.strong_password upper digit special) h = update_all-Gives _ s v
