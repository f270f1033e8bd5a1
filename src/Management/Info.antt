-- ===== src/Management/Info.antt =====
-- yubikit/management.py: `DeviceInfo`.
use yubikey_manager.Prelude.{
  true, false, ℕ, ◌+◌, Bool, false, ◌&&◌, Option, none, some, [], ◌∷◌, ◌==◌, if◌then◌else◌, length,
  drop,
}
use yubikey_manager.Core.Error.{
  err, Result, ok, key_error, bad_response, require, from_option, ◌>>=◌, ◌>>◌,
}
use yubikey_manager.Core.Bytes.{Bytes, byte_at, bytes2int}
use yubikey_manager.Core.Dict.{Dict, get, get_default}
use yubikey_manager.Core.Text.{Text, decode}
use yubikey_manager.Core.Version.{Version, from_bytes, is_between, is_set}
use yubikey_manager.Core.Tlv.{parse_dict}
use yubikey_manager.Management.Capability.{FormFactor, form_factor, from_fips, has}
use yubikey_manager.Management.Config.{Capabilities, DeviceConfig}

-- `config`, with the other fields. `part_number` is the encoded string.
pub record DeviceInfo : Type 0 where
  pub config : DeviceConfig
  pub serial : Option ℕ
  pub version : Version
  pub form : FormFactor
  pub supported_capabilities : Capabilities
  pub is_locked : Bool
  pub is_fips : Bool
  pub is_sky : Bool
  pub part_number : Option Bytes
  pub fips_capable : ℕ
  pub fips_approved : ℕ
  pub pin_complexity : Bool
  pub reset_blocked : ℕ
  pub fps_version : Option Version
  pub stm_version : Option Version

-- `b == b"\1"`
unfoldable pub is_one : Bytes → Bool
is_one (b ∷ []) = b == 1
is_one _ = false

-- `n or None`
abbrev pub nonzero : ℕ → Option ℕ
nonzero n = if n == 0 then none else some n

abbrev pub nonempty : Bytes → Option Bytes
nonempty b = if length b == 0 then none else some b

abbrev pub set_version : Version → Option Version
set_version v = if is_set v then some v else none

-- `bytes.decode()` succeeds.
abbrev succeeds : Result Text → Bool
succeeds (ok s) = true
succeeds (err e) = false

unfoldable pub decodes : Bytes → Bool
decodes bs = succeeds (decode bs)

-- `(4, 0, 0) <= version < (5, 0, 0)`
abbrev pub is_yk4 : Version → Bool
is_yk4 v = is_between (4 ∷ 0 ∷ 0 ∷ []) v (5 ∷ 0 ∷ 0 ∷ [])

-- `version == (4, 2, 4)`
abbrev pub is_4_2_4 : Version → Bool
is_4_2_4 v = v.major == 4 && (v.minor == 2 && v.patch == 4)

abbrev int_at : Dict Bytes → ℕ → ℕ
int_at d tag = bytes2int (get_default d tag (0 ∷ []))

unfoldable pub read_version : Dict Bytes → Version → Result Version
read_version d default_version = elim (get d 0x05) [
  | none ↦ ok default_version
  | some b ↦ from_bytes b
]

unfoldable pub usb_supported : Dict Bytes → Version → Result ℕ
usb_supported d v =
    if is_4_2_4 v then ok 0x3f else (do b ← from_option key_error (get d 0x01); ok (bytes2int b))

unfoldable pub usb_enabled : Dict Bytes → Version → Option ℕ
usb_enabled d v = elim (get d 0x03) [
  | none ↦ none
  | some b ↦ if is_yk4 v then none else some (bytes2int b)
]

-- What is supported and what is enabled over NFC.
unfoldable pub nfc_capabilities : Dict Bytes → Result (Option ℕ × Option ℕ)
nfc_capabilities d = elim (get d 0x0d) [
  | none ↦ ok (none, none)
  | some b ↦ do e ← from_option key_error (get d 0x0e); ok (some (bytes2int b), some (bytes2int e))
]

-- `parse_tlvs`
unfoldable pub parse_tlvs : Dict Bytes → Version → Result DeviceInfo
parse_tlvs d default_version = do
  version ← read_version d default_version
  usb ← usb_supported d version
  (nfc, nfc_on) ← nfc_capabilities d
  fps ← from_bytes (get_default d 0x20 (0 ∷ 0 ∷ 0 ∷ []))
  stm ← from_bytes (get_default d 0x21 (0 ∷ 0 ∷ 0 ∷ []))
  let ff = int_at d 0x04
  let part = get_default d 0x13 []
  ok (record {
    config = record {
      enabled_capabilities = record { usb = usb_enabled d version; nfc = nfc_on };
      auto_eject_timeout = some (int_at d 0x06);
      challenge_response_timeout = some (int_at d 0x07);
      device_flags = some (int_at d 0x08);
      nfc_restricted = some (is_one (get_default d 0x17 (0 ∷ [])));
    };
    serial = nonzero (int_at d 0x02);
    version = version;
    form = form_factor ff;
    supported_capabilities = record { usb = some usb; nfc = nfc };
    is_locked = is_one (get_default d 0x0a []);
    is_fips = has ff 0x80;
    is_sky = has ff 0x40;
    part_number = if decodes part then nonempty part else none;
    fips_capable = from_fips (int_at d 0x14);
    fips_approved = from_fips (int_at d 0x15);
    pin_complexity = is_one (get_default d 0x16 (0 ∷ []));
    reset_blocked = int_at d 0x18;
    fps_version = set_version fps;
    stm_version = set_version stm;
  })

-- The encoding without its length byte, which has to be right.
unfoldable pub unframe : Bytes → Result Bytes
unframe encoded = do
  n ← byte_at encoded 0
  require (length encoded == n + 1) bad_response
  ok (drop 1 encoded)

-- `DeviceInfo.parse`
unfoldable pub parse : Bytes → Version → Result DeviceInfo
parse encoded default_version = do
  body ← unframe encoded
  d ← parse_dict body
  parse_tlvs d default_version
