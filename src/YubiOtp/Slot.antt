-- ===== src/YubiOtp/Slot.antt =====
-- yubikit/yubiotp.py: `SlotConfiguration` and its subclasses.
pub mod Valid
pub mod Calls
pub mod Built
use yubikey_manager.Prelude.{
  ℕ, ◌+◌, ◌-◌, ◌*◌, ◌/◌, ◌%◌, ◌^◌, Bool, true, false, not, ◌&&◌, ◌||◌, Option, none, some, List, [],
  ◌∷◌, ◌++◌, bit_and, bit_or, ltb, leb, ◌==◌, if◌then◌else◌, length, take, drop, replicate,
}
use yubikey_manager.Core.Error.{Result, ok, err, value_error, not_supported, require, ◌>>=◌, ◌>>◌}
use yubikey_manager.Core.Bytes.{Bytes, ljust, pack_be16}
use yubikey_manager.Core.Version.{Version, is_since}
use yubikey_manager.YubiOtp.Flags.{
  Flag, tkt, cfg, ext, tkt_value, cfg_value, ext_value, and_not, tkt_update_mask, cfg_update_mask,
  TktFlag, CfgFlag, ExtFlag,
}
use yubikey_manager.YubiOtp.Config.{
  fixed_size, uid_size, key_size, scan_codes_size, build_config, shorten_hmac_key,
}

-- The subclass of an object.
pub data Kind : Type 0 where
  hmac_sha1 hotp static_password yubi_otp static_ticket update : Kind

-- `_flags` has a number for each class of flags, 0 where none was set.
pub record Slot : Type 0 where
  pub kind : Kind
  pub fixed : Bytes
  pub uid : Bytes
  pub key : Bytes
  pub ext_flags : ℕ
  pub tkt_flags : ℕ
  pub cfg_flags : ℕ

-- `flags | flag if value else flags & ~flag`
abbrev pub put_flag : Bool → ℕ → ℕ → ℕ
put_flag on flags flag = if on then bit_or flags flag else and_not flags flag

-- `SlotConfiguration._update_flags`
unfoldable pub set_flag : Flag → Bool → Slot → Slot
set_flag (tkt f) on s = record s { tkt_flags = put_flag on s.tkt_flags (tkt_value f) }
set_flag (cfg f) on s = record s { cfg_flags = put_flag on s.cfg_flags (cfg_value f) }
set_flag (ext f) on s = record s { ext_flags = put_flag on s.ext_flags (ext_value f) }

-- The check of `UpdateConfiguration._update_flags`: all EXT flags are allowed.
unfoldable pub allowed_for_update : Flag → Bool
allowed_for_update (tkt f) = not (bit_and tkt_update_mask (tkt_value f) == 0)
allowed_for_update (cfg f) = not (bit_and cfg_update_mask (cfg_value f) == 0)
allowed_for_update (ext f) = true

-- `_update_flags`, by the class of the object
unfoldable pub update_flags : Flag → Bool → Slot → Result Slot
update_flags flag on s = elim s.kind [
  | update ↦ if allowed_for_update flag then ok (set_flag flag on s) else err value_error
  | _ ↦ ok (set_flag flag on s)
]

-- A method that sets several flags, one after the other.
unfoldable pub update_all : List (Flag × Bool) → Slot → Result Slot
update_all [] s = ok s
update_all ((flag, on) ∷ rest) s = do t ← update_flags flag on s; update_all rest t

-- The fields as `SlotConfiguration.__init__` sets them, before the flags.
abbrev pub blank : Kind → Slot
blank k = record {
  kind = k;
  fixed = [];
  uid = replicate uid_size 0;
  key = replicate key_size 0;
  ext_flags = 0;
  tkt_flags = 0;
  cfg_flags = 0;
}

abbrev pub base_flags : List (Flag × Bool)
base_flags = (ext ExtFlag.serial_api_visible, true) ∷ (ext ExtFlag.allow_update, true) ∷ []

-- `SlotConfiguration.__init__`
unfoldable pub init_slot : Kind → Result Slot
init_slot k = update_all base_flags (blank k)

-- `KeyboardSlotConfiguration.__init__`
unfoldable pub init_keyboard : Kind → Result Slot
init_keyboard k = do
  s ← init_slot k
  update_all ((tkt TktFlag.append_cr, true) ∷ (ext ExtFlag.fast_trig, true) ∷ []) s

-- The key is packed into key and uid.
abbrev pub with_hmac_key : Bytes → Slot → Slot
with_hmac_key k s = record s {
  key = ljust key_size 0 (take key_size k);
  uid = ljust uid_size 0 (drop key_size k);
}

unfoldable pub new_hmac_sha1 : (Bytes → Bytes) → Bytes → Result Slot
new_hmac_sha1 sha1 k = do
  s ← init_slot hmac_sha1
  short ← shorten_hmac_key sha1 k
  update_all
      ((tkt TktFlag.chal_resp, true)
        ∷ (cfg CfgFlag.chal_hmac, true)
        ∷ (cfg CfgFlag.hmac_lt64, true)
        ∷ [])
      (with_hmac_key short s)

unfoldable pub new_hotp : (Bytes → Bytes) → Bytes → Result Slot
new_hotp sha1 k = do
  s ← init_keyboard hotp
  short ← shorten_hmac_key sha1 k
  update_all ((tkt TktFlag.oath_hotp, true) ∷ (cfg CfgFlag.oath_fixed_modhex2, true) ∷ [])
      (with_hmac_key short s)

unfoldable pub new_static_password : Bytes → Result Slot
new_static_password scan_codes = do
  s ← init_keyboard static_password
  require (not (ltb scan_codes_size (length scan_codes))) not_supported
  let padded = ljust scan_codes_size 0 scan_codes
  update_all ((cfg CfgFlag.short_ticket, true) ∷ []) (record s {
    fixed = take fixed_size padded;
    uid = take uid_size (drop fixed_size padded);
    key = drop (fixed_size + uid_size) padded;
  })

-- The checks that `YubiOtpSlotConfiguration` and `StaticTicketSlotConfiguration` share.
unfoldable pub with_credentials : Bytes → Bytes → Bytes → Slot → Result Slot
with_credentials fixed uid key s = do
  require (not (ltb fixed_size (length fixed))) value_error
  require (length uid == uid_size) value_error
  require (length key == key_size) value_error
  ok (record s { fixed = fixed; uid = uid; key = key })

unfoldable pub new_yubi_otp : Bytes → Bytes → Bytes → Result Slot
new_yubi_otp fixed uid key = do s ← init_keyboard yubi_otp; with_credentials fixed uid key s

unfoldable pub new_static_ticket : Bytes → Bytes → Bytes → Result Slot
new_static_ticket fixed uid key = do
  s ← init_keyboard static_ticket
  t ← with_credentials fixed uid key s
  update_all ((cfg CfgFlag.static_ticket, true) ∷ []) t

unfoldable pub new_update : Result Slot
new_update = do
  s ← init_keyboard update
  ok (record s {
    fixed = replicate fixed_size 0;
    uid = replicate uid_size 0;
    key = replicate key_size 0;
  })

-- The methods that callers chain, with their arguments.
pub data Call : Type 0 where
  serial_api_visible serial_usb_visible allow_update dormant invert_led : Bool → Call
  protect_slot2 require_touch lt64 append_cr fast_trigger use_numeric : Bool → Call
  pacing : Bool → Bool → Call
  digits8 : Bool → Call
  token_id : Bytes → Bool → Bool → Call
  imf : ℕ → Call
  tabs : Bool → Bool → Bool → Call
  delay : Bool → Bool → Call
  send_reference short_ticket manual_update : Bool → Call
  strong_password : Bool → Bool → Bool → Call

-- `imf`: the two bytes go behind the first four of the uid.
unfoldable pub set_imf : ℕ → Slot → Result Slot
set_imf n s =
    if n % 16 == 0 && leb n 0xffff0
    then (do packed ← pack_be16 (n / 16); ok (record s { uid = take 4 s.uid ++ packed }))
    else err value_error

unfoldable pub set_token_id : Bytes → Bool → Bool → Slot → Result Slot
set_token_id token modhex1 modhex2 s = do
  require (not (ltb fixed_size (length token))) value_error
  update_all
      ((cfg CfgFlag.oath_fixed_modhex1, modhex1) ∷ (cfg CfgFlag.oath_fixed_modhex2, modhex2) ∷ [])
      (record s { fixed = token })

-- `protect_slot2`, which `UpdateConfiguration` refuses
unfoldable pub set_protect_slot2 : Bool → Slot → Result Slot
set_protect_slot2 on s = elim s.kind [
  | update ↦ err value_error
  | _ ↦ update_flags (tkt TktFlag.protect_cfg2) on s
]

unfoldable pub invoke : Call → Slot → Result Slot
invoke (serial_api_visible on) = update_flags (ext ExtFlag.serial_api_visible) on
invoke (serial_usb_visible on) = update_flags (ext ExtFlag.serial_usb_visible) on
invoke (allow_update on) = update_flags (ext ExtFlag.allow_update) on
invoke (dormant on) = update_flags (ext ExtFlag.dormant) on
invoke (invert_led on) = update_flags (ext ExtFlag.led_inv) on
invoke (protect_slot2 on) = set_protect_slot2 on
invoke (require_touch on) = update_flags (cfg CfgFlag.chal_btn_trig) on
invoke (lt64 on) = update_flags (cfg CfgFlag.hmac_lt64) on
invoke (append_cr on) = update_flags (tkt TktFlag.append_cr) on
invoke (fast_trigger on) = update_flags (ext ExtFlag.fast_trig) on
invoke (use_numeric on) = update_flags (ext ExtFlag.use_numeric_keypad) on
invoke (pacing ten twenty) =
    update_all ((cfg CfgFlag.pacing_10ms, ten) ∷ (cfg CfgFlag.pacing_20ms, twenty) ∷ [])
invoke (digits8 on) = update_flags (cfg CfgFlag.oath_hotp8) on
invoke (token_id token modhex1 modhex2) = set_token_id token modhex1 modhex2
invoke (imf n) = set_imf n
invoke (tabs before first second) = update_all (
    (tkt TktFlag.tab_first, before)
    ∷ (tkt TktFlag.append_tab1, first)
    ∷ (tkt TktFlag.append_tab2, second)
    ∷ [])
invoke (delay first second) =
    update_all ((tkt TktFlag.append_delay1, first) ∷ (tkt TktFlag.append_delay2, second) ∷ [])
invoke (send_reference on) = update_flags (cfg CfgFlag.send_ref) on
invoke (short_ticket on) = update_flags (cfg CfgFlag.short_ticket) on
invoke (manual_update on) = update_flags (cfg CfgFlag.man_update) on
invoke (strong_password upper digit special) = update_all (
    (cfg CfgFlag.strong_pw1, upper)
    ∷ (cfg CfgFlag.strong_pw2, digit || special)
    ∷ (cfg CfgFlag.send_ref, special)
    ∷ [])

-- `is_supported_by`
unfoldable pub is_supported_by : Slot → Version → Bool
is_supported_by s version = elim s.kind [
  | yubi_otp ↦ true
  | static_ticket ↦ true
  | _ ↦ is_since version (2 ∷ 2 ∷ 0 ∷ []) || version.major == 0
]

-- `get_config`
unfoldable pub get_config : Slot → Option Bytes → Result Bytes
get_config s acc_code =
    build_config s.fixed s.uid s.key s.ext_flags s.tkt_flags s.cfg_flags acc_code
