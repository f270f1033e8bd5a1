-- ===== src/YubiOtp/Tests.antt =====
-- The theorems on yubikit/yubiotp.py at concrete inputs and backends.
use yubikey_manager.Prelude.{
  ℕ, ◌≤◌, ◌≡◌, refl, arith, true, none, some, [], ◌∷◌, ◌++◌, length, replicate, All, All-replicate,
  length-replicate,
}
use yubikey_manager.Core.Error.{ok, err, command_rejected}
use yubikey_manager.Core.Io.{Io}
use yubikey_manager.Core.Bytes.{Bytes, IsByte}
use yubikey_manager.Core.Version.{version}
use yubikey_manager.YubiOtp.Flags.{ext_value, tkt_value}
use yubikey_manager.YubiOtp.Config.Checked.{IsWritable}
use yubikey_manager.YubiOtp.Slot.{
  Slot, Kind, new_yubi_otp, init_keyboard, init_slot, update_all, update_flags, set_flag,
  with_credentials, get_config, is_supported_by,
}
use yubikey_manager.YubiOtp.Slot.Built.{Built, get_config-IsWritable}
use yubikey_manager.YubiOtp.State.{SlotId}
use yubikey_manager.YubiOtp.Session.{
  Backend, Card, card_status, card_write_update, put_configuration, pad_challenge,
}
use yubikey_manager.YubiOtp.Session.Updates.{
  card_write_update_lem, card_write_update-unchanged, put_configuration-writes,
}
use yubikey_manager.YubiOtp.Session.Challenges.{strip_padding, strip_padding-pad_challenge}
use yubikey_manager.YubiOtp.Ndef.{
  NdefType, build_ndef_config, ndef_data, url_prefixes, find_prefix, starts_with,
}
use yubikey_manager.YubiOtp.Ndef.Reading.{read_uri, build_ndef_config-read}

-- A hash of the right size.
abbrev hash : Bytes → Bytes
hash k = replicate 20 7

hash_digest : (k : Bytes) → All IsByte (hash k) × (length (hash k) ≡ 20)
hash_digest k = (All-replicate IsByte 20 7 (omega arith), length-replicate {A = ℕ} 20 7)

abbrev made : Slot
made = record {
  kind = Kind.yubi_otp;
  fixed = 1 ∷ 2 ∷ [];
  uid = replicate 6 3;
  key = replicate 16 4;
  ext_flags = 0x34;
  tkt_flags = 0x20;
  cfg_flags = 0;
}

made_new : new_yubi_otp (1 ∷ 2 ∷ []) (replicate 6 3) (replicate 16 4) ≡ ok made
unfolding new_yubi_otp init_keyboard init_slot update_all update_flags set_flag with_credentials
    ext_value tkt_value
made_new = refl

made-Built : Built hash made
made-Built =
    Built.yubi_otp (1 ∷ 2 ∷ []) (replicate 6 3) (replicate 16 4) (omega arith) (omega arith)
      (omega arith) made_new

get_config-IsWritable_example : (b : Bytes) × (get_config made none ≡ ok b) × IsWritable b
get_config-IsWritable_example = get_config-IsWritable hash hash_digest made none made-Built tt

-- A backend that takes everything.
abbrev willing : Backend Unit
willing = record {
  write_update = λ slot data_ d. (ok (5 ∷ 4 ∷ 3 ∷ 1 ∷ 1 ∷ 0 ∷ []), d);
  exchange = λ slot data_ n d. (ok [], d);
}

made_supported : is_supported_by made (version 5 4 3) ≡ true
unfolding is_supported_by
made_supported = refl

put_configuration_example :
    (b : Bytes) × (get_config made none ≡ ok b)
    × IsWritable b
    × (length (b ++ replicate 6 0) ≡ 58)
    × (put_configuration none willing
          (version 5 4 3)
          SlotId.two
          made
          none
          none
          (record { world = tt; status = [] })
        ≡ (ok tt, record { world = tt; status = 5 ∷ 4 ∷ 3 ∷ 1 ∷ 1 ∷ 0 ∷ [] }))
put_configuration_example =
    put_configuration-writes none willing (version 5 4 3) hash hash_digest SlotId.two made none none
      (record { world = tt; status = [] }) made-Built tt refl made_supported

-- A card that always has the same status, with 7 as the programming sequence number.
abbrev fixed_status : ℕ → ℕ → Bytes → Io Unit Bytes
fixed_status ins p1 data_ d = (ok (5 ∷ 4 ∷ 3 ∷ 7 ∷ 1 ∷ 0 ∷ []), d)

abbrev card_at : ℕ → Card Unit
card_at n = record { world = tt; prog_seq = n }

status_read :
    (n : ℕ)
    → card_status fixed_status 1 [] (card_at n) ≡ (ok (5 ∷ 4 ∷ 3 ∷ 7 ∷ 1 ∷ 0 ∷ []), card_at n)
unfolding card_status
status_read n = refl

card_write_update_example :
    card_write_update fixed_status 1 [] (card_at 6) ≡ (ok (5 ∷ 4 ∷ 3 ∷ 7 ∷ 1 ∷ 0 ∷ []), card_at 7)
card_write_update_example =
    card_write_update_lem fixed_status 1 [] (card_at 6) (card_at 6) 5 4 3 7 1 (0 ∷ [])
      (status_read 6)

card_write_update-unchanged_example :
    card_write_update fixed_status 1 [] (card_at 7) ≡ (err command_rejected, card_at 7)
card_write_update-unchanged_example =
    card_write_update-unchanged fixed_status 1 [] (card_at 7) (card_at 7) 5 4 3 1 (0 ∷ [])
      (status_read 7)

strip_padding-pad_challenge_example :
    (length (pad_challenge (1 ∷ 0 ∷ 0 ∷ [])) ≡ 64)
    × (strip_padding (pad_challenge (1 ∷ 0 ∷ 0 ∷ [])) ≡ 1 ∷ 0 ∷ 0 ∷ [])
strip_padding-pad_challenge_example = strip_padding-pad_challenge (1 ∷ 0 ∷ 0 ∷ []) (omega arith)

-- "tel:1"
abbrev phone : Bytes
phone = 116 ∷ 101 ∷ 108 ∷ 58 ∷ 49 ∷ []

phone_fits : length (ndef_data (some phone) NdefType.uri) ≤ 54
unfolding ndef_data find_prefix starts_with
phone_fits = omega arith

build_ndef_config-read_example :
    (b : Bytes) × (build_ndef_config (some phone) NdefType.uri ≡ ok b)
    × (length b ≡ 56)
    × (read_uri url_prefixes b ≡ some phone)
build_ndef_config-read_example = build_ndef_config-read phone phone_fits
