-- ===== src/YubiOtp/Flags.antt =====
-- yubikit/yubiotp.py: the flags of a slot configuration and the masks for updates. An alias of a
-- Python flag, a second name for one value, is a constructor of its own.
use yubikey_manager.Prelude.{ℕ, ◌-◌, bit_and}

pub data TktFlag : Type 0 where
  tab_first append_tab1 append_tab2 append_delay1 append_delay2 append_cr : TktFlag
  protect_cfg2 oath_hotp chal_resp : TktFlag

pub data CfgFlag : Type 0 where
  send_ref pacing_10ms pacing_20ms static_ticket short_ticket strong_pw1 strong_pw2 : CfgFlag
  man_update oath_hotp8 oath_fixed_modhex1 oath_fixed_modhex2 chal_hmac hmac_lt64 : CfgFlag
  chal_btn_trig : CfgFlag

pub data ExtFlag : Type 0 where
  serial_btn_visible serial_usb_visible serial_api_visible use_numeric_keypad : ExtFlag
  fast_trig allow_update dormant led_inv : ExtFlag

-- A flag of one of the three classes.
pub data Flag : Type 0 where
  tkt : TktFlag → Flag
  cfg : CfgFlag → Flag
  ext : ExtFlag → Flag

unfoldable pub tkt_value : TktFlag → ℕ
tkt_value tab_first = 0x01
tkt_value append_tab1 = 0x02
tkt_value append_tab2 = 0x04
tkt_value append_delay1 = 0x08
tkt_value append_delay2 = 0x10
tkt_value append_cr = 0x20
tkt_value protect_cfg2 = 0x80
tkt_value oath_hotp = 0x40
tkt_value chal_resp = 0x40

unfoldable pub cfg_value : CfgFlag → ℕ
cfg_value send_ref = 0x01
cfg_value pacing_10ms = 0x04
cfg_value pacing_20ms = 0x08
cfg_value static_ticket = 0x20
cfg_value short_ticket = 0x02
cfg_value strong_pw1 = 0x10
cfg_value strong_pw2 = 0x40
cfg_value man_update = 0x80
cfg_value oath_hotp8 = 0x02
cfg_value oath_fixed_modhex1 = 0x10
cfg_value oath_fixed_modhex2 = 0x40
cfg_value chal_hmac = 0x22
cfg_value hmac_lt64 = 0x04
cfg_value chal_btn_trig = 0x08

unfoldable pub ext_value : ExtFlag → ℕ
ext_value serial_btn_visible = 0x01
ext_value serial_usb_visible = 0x02
ext_value serial_api_visible = 0x04
ext_value use_numeric_keypad = 0x08
ext_value fast_trig = 0x10
ext_value allow_update = 0x20
ext_value dormant = 0x40
ext_value led_inv = 0x80

-- `TKTFLAG_UPDATE_MASK`, `CFGFLAG_UPDATE_MASK` and `EXTFLAG_UPDATE_MASK`
abbrev pub tkt_update_mask : ℕ
tkt_update_mask = 0x3f

abbrev pub cfg_update_mask : ℕ
cfg_update_mask = 0x0c

abbrev pub ext_update_mask : ℕ
ext_update_mask = 0xff

-- `flags & ~flag`, for `flags` at least 0
abbrev pub and_not : ℕ → ℕ → ℕ
and_not flags flag = flags - bit_and flags flag
