-- ===== src/Management/Config/Written.antt =====
-- What `DeviceConfig.get_bytes` writes.
use yubikey_manager.Prelude.{
  ℕ, zero, suc, ◌<◌, ◌≡◌, ◌∙◌, ap, refl, sym, Bool, not, Option, none, some, List, [], ◌∷◌, ◌++◌,
  ltb, if◌then◌else◌, length, arith, append-nil, append_assoc, All, Bool-cases, inl, inr,
}
use yubikey_manager.Core.Error.{Result, ok, err, not_supported, require, ◌>>◌}
use yubikey_manager.Core.Bytes.{Bytes, int2bytes, int2bytes_loop}
use yubikey_manager.Core.Dict.{update}
use yubikey_manager.Core.Tlv.{new, pack, parse_dict}
use yubikey_manager.Core.Tlv.Encoding.{init-pack}
use yubikey_manager.Core.Tlv.Fields.{IsField, pack_all, parse_dict-pack_all}
use yubikey_manager.Management.Config.{DeviceConfig, field, if_code, as_int, if_true, get_bytes}

abbrev pub optional : ℕ → Option Bytes → List (ℕ × Bytes)
optional tag none = []
optional tag (some v) = (tag, v) ∷ []

-- The settings that are given, by their tags, in the order of the format.
unfoldable pub settings : DeviceConfig → Bool → Option Bytes → Option Bytes → List (ℕ × Bytes)
settings c reboot cur new_code =
    optional 0x0c (if reboot then some [] else none)
    ++ (optional 0x0b (if_code cur)
        ++ (optional 0x03 (as_int 2 c.enabled_capabilities.usb)
            ++ (optional 0x0e (as_int 2 c.enabled_capabilities.nfc)
                ++ (optional 0x06 (as_int 2 c.auto_eject_timeout)
                    ++ (optional 0x07 (as_int 0 c.challenge_response_timeout)
                        ++ (optional 0x08 (as_int 0 c.device_flags)
                            ++ (optional 0x0a (if_code new_code)
                                ++ optional 0x17 (if_true c.nfc_restricted (1 ∷ [])))))))))

pack_all-append : (xs ys : List (ℕ × Bytes)) → pack_all (xs ++ ys) ≡ pack_all xs ++ pack_all ys
unfolding pack_all
pack_all-append [] ys = refl
pack_all-append ((tag, v) ∷ xs) ys =
    ap (λ r. pack tag v ++ r) (pack_all-append xs ys)
    ∙ sym (append_assoc (pack tag v) (pack_all xs) (pack_all ys))

field-optional :
    (tag : ℕ) (v : Option Bytes)
    → All IsField (optional tag v)
    → field tag v ≡ ok (pack_all (optional tag v))
unfolding field pack_all new
field-optional tag none h = refl
field-optional tag (some v) h = rw (init-pack tag v h.0.0 h.0.1) (rw (append-nil (pack tag v)))

All-left : (xs ys : List (ℕ × Bytes)) → All IsField (xs ++ ys) → All IsField xs
All-left [] ys h = tt
All-left (x ∷ xs) ys h = (h.0, All-left xs ys h.1)

All-right : (xs ys : List (ℕ × Bytes)) → All IsField (xs ++ ys) → All IsField ys
All-right [] ys h = h
All-right (x ∷ xs) ys h = All-right xs ys h.1

int2bytes_byte : (n : ℕ) → n < 256 → int2bytes n 0 ≡ n ∷ []
unfolding int2bytes int2bytes_loop
int2bytes_byte zero h = refl
int2bytes_byte (suc n) h = ground (arith, h)

-- The end of `get_bytes`: the size limit, and the length in front.
abbrev finish : Bytes → Result Bytes
finish buf = do
  require (not (ltb 0xff (length buf))) not_supported
  ok (int2bytes (length buf) 0 ++ buf)

finish_lem :
    (buf : Bytes)
    → finish buf ≡ (if ltb 0xff (length buf) then err not_supported else ok (length buf ∷ buf))
finish_lem buf = elim (Bool-cases (ltb 0xff (length buf))) [
  | inl p ↦ rw p
  | inr p ↦ rw p (rw (int2bytes_byte (length buf) (ground (arith, p))))
]

append_parts :
    (xs ys : List (ℕ × Bytes)) (b : Bytes)
    → pack_all ys ≡ b
    → pack_all (xs ++ ys) ≡ pack_all xs ++ b
append_parts xs ys b e = pack_all-append xs ys ∙ ap (λ r. pack_all xs ++ r) e

module _ (c : DeviceConfig) (reboot : Bool) (cur new_code : Option Bytes) where
  module _ (h : All IsField (settings c reboot cur new_code)) where
    collected : get_bytes c reboot cur new_code ≡ finish (pack_all (settings c reboot cur new_code))
    unfolding get_bytes settings
    collected =
        let r9 : List (ℕ × Bytes) = (optional 0x17 (if_true c.nfc_restricted (1 ∷ []))) in
        let r8 : List (ℕ × Bytes) = (optional 0x0a (if_code new_code)) ++ r9 in
        let r7 : List (ℕ × Bytes) = (optional 0x08 (as_int 0 c.device_flags)) ++ r8 in
        let r6 : List (ℕ × Bytes) = (optional 0x07 (as_int 0 c.challenge_response_timeout)) ++ r7 in
        let r5 : List (ℕ × Bytes) = (optional 0x06 (as_int 2 c.auto_eject_timeout)) ++ r6 in
        let r4 : List (ℕ × Bytes) = (optional 0x0e (as_int 2 c.enabled_capabilities.nfc)) ++ r5 in
        let r3 : List (ℕ × Bytes) = (optional 0x03 (as_int 2 c.enabled_capabilities.usb)) ++ r4 in
        let r2 : List (ℕ × Bytes) = (optional 0x0b (if_code cur)) ++ r3 in
        let r1 : List (ℕ × Bytes) = (optional 0x0c (if reboot then some [] else none)) ++ r2 in
        let h2 : All IsField r2 =
          All-right (optional 0x0c (if reboot then some [] else none)) r2 h in
        let h3 : All IsField r3 = All-right (optional 0x0b (if_code cur)) r3 h2 in
        let h4 : All IsField r4 =
          All-right (optional 0x03 (as_int 2 c.enabled_capabilities.usb)) r4 h3 in
        let h5 : All IsField r5 =
          All-right (optional 0x0e (as_int 2 c.enabled_capabilities.nfc)) r5 h4 in
        let h6 : All IsField r6 = All-right (optional 0x06 (as_int 2 c.auto_eject_timeout)) r6 h5 in
        let h7 : All IsField r7 =
          All-right (optional 0x07 (as_int 0 c.challenge_response_timeout)) r7 h6 in
        let h8 : All IsField r8 = All-right (optional 0x08 (as_int 0 c.device_flags)) r8 h7 in
        let h9 : All IsField r9 = All-right (optional 0x0a (if_code new_code)) r9 h8 in
        rw
          (field-optional 0x0c (if reboot then some [] else none)
            (All-left (optional 0x0c (if reboot then some [] else none)) r2 h))
          (rw (field-optional 0x0b (if_code cur) (All-left (optional 0x0b (if_code cur)) r3 h2)) (
            rw
              (field-optional 0x03 (as_int 2 c.enabled_capabilities.usb)
                (All-left (optional 0x03 (as_int 2 c.enabled_capabilities.usb)) r4 h3))
              (rw
                (field-optional 0x0e (as_int 2 c.enabled_capabilities.nfc)
                  (All-left (optional 0x0e (as_int 2 c.enabled_capabilities.nfc)) r5 h4))
                (rw
                  (field-optional 0x06 (as_int 2 c.auto_eject_timeout)
                    (All-left (optional 0x06 (as_int 2 c.auto_eject_timeout)) r6 h5))
                  (rw
                    (field-optional 0x07 (as_int 0 c.challenge_response_timeout)
                      (All-left (optional 0x07 (as_int 0 c.challenge_response_timeout)) r7 h6))
                    (rw
                      (field-optional 0x08 (as_int 0 c.device_flags)
                        (All-left (optional 0x08 (as_int 0 c.device_flags)) r8 h7))
                      (rw
                        (field-optional 0x0a (if_code new_code)
                          (All-left (optional 0x0a (if_code new_code)) r9 h8))
                        (rw (field-optional 0x17 (if_true c.nfc_restricted (1 ∷ [])) h9) (
                          ap finish (
                            sym (
                              append_parts (optional 0x0c (if reboot then some [] else none)) r2 _ (
                                append_parts (optional 0x0b (if_code cur)) r3 _ (
                                  append_parts (optional 0x03 (as_int 2 c.enabled_capabilities.usb))
                                    r4 _
                                    (append_parts
                                      (optional 0x0e (as_int 2 c.enabled_capabilities.nfc)) r5 _
                                      (append_parts (optional 0x06 (as_int 2 c.auto_eject_timeout))
                                        r6 _
                                        (append_parts
                                          (optional 0x07 (as_int 0 c.challenge_response_timeout)) r7
                                          _
                                          (append_parts (optional 0x08 (as_int 0 c.device_flags)) r8
                                            _
                                            (append_parts (optional 0x0a (if_code new_code)) r9 _
                                              refl))))))))))))))))))

    -- `get_bytes` raises `NotSupportedError` where the TLVs of the settings are longer than 255
    -- bytes, and else gives their length and them; `Tlv.parse_dict` reads the settings back from
    -- them. Each value is shorter than 2 ^ 63.
    pub get_bytes_lem :
        (get_bytes c reboot cur new_code ≡ (
          let buf = pack_all (settings c reboot cur new_code) in
          if ltb 0xff (length buf) then err not_supported else ok (length buf ∷ buf)))
        × (parse_dict (pack_all (settings c reboot cur new_code))
            ≡ ok (update [] (settings c reboot cur new_code)))
    get_bytes_lem = (
      collected ∙ finish_lem (pack_all (settings c reboot cur new_code)),
      parse_dict-pack_all (settings c reboot cur new_code) h,
    )
