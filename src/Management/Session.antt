-- ===== src/Management/Session.antt =====
-- yubikit/management.py: the backends (OTP, smart card, CTAP) and `ManagementSession`.
pub mod Pages
pub mod Writing
use yubikey_manager.Prelude.{
  ℕ, zero, suc, ◌+◌, ◌-◌, Bool, true, false, not, ◌&&◌, Option, none, some, List, [], ◌∷◌, ◌++◌,
  bit_and, bit_or, ltb, ◌==◌, if◌then◌else◌, length, take,
}
use yubikey_manager.Core.Error.{
  Error, Result, ok, err, value_error, bad_response, not_supported, command_rejected, index_error,
  out_of_fuel,
}
use yubikey_manager.Core.Io.{Io, pure, raise, lift, ◌>>=◌, ◌>>◌}
use yubikey_manager.Core.Bytes.{Bytes, byte_at, int2bytes, pack_b, pack_le16}
use yubikey_manager.Core.Dict.{Dict, get, remove, update}
use yubikey_manager.Core.Version.{Version, version, is_since, require_version}
use yubikey_manager.Core.Tlv.{parse_dict}
use yubikey_manager.Otp.Crc.{check_crc}
use yubikey_manager.Otp.Protocol.{Host, read_status, send_and_receive}
use yubikey_manager.Management.Mode.{Mode}
use yubikey_manager.Management.Config.{DeviceConfig, default_config, get_bytes}
use yubikey_manager.Management.Info.{DeviceInfo, is_one, unframe, parse_tlvs}

-- `_Backend`
pub record Backend (D : Type 0) : Type 0 where
  pub version : Version
  pub set_mode : Bytes → Io D Unit
  pub read_config : ℕ → Io D Bytes
  pub write_config : Bytes → Io D Unit

-- `except CommandRejectedError: if empty: return`
abbrev pub allow_rejected : {D : Type 0} → Bool → Result Bytes × D → Result (Unit {0}) × D
allow_rejected empty (ok response, d) = (ok tt, d)
allow_rejected empty (err Error.command_rejected, d) =
    (if empty then ok tt else err command_rejected, d)
allow_rejected empty (err e, d) = (err e, d)

-- `_ManagementOtpBackend`, with the fuel for the reports of an answer.
module _ {D : Type 0} (host : Host D) (fuel : ℕ) where
  unfoldable pub otp_set_mode : Bytes → Io D Unit
  otp_set_mode data_ = do
    status ← read_status host
    seq ← lift (byte_at status 4)
    λ d. allow_rejected (seq == 0) (send_and_receive host fuel 0x11 data_ d)

  unfoldable pub otp_read_config : ℕ → Io D Bytes
  otp_read_config page = do
    response ← send_and_receive host fuel 0x13 (int2bytes page 0)
    r_len ← lift (byte_at response 0)
    if check_crc (take (r_len + 1 + 2) response)
        then pure (take (r_len + 1) response)
        else raise bad_response

  unfoldable pub otp_write_config : Bytes → Io D Unit
  otp_write_config config = do _ ← send_and_receive host fuel 0x15 config; pure tt

  abbrev pub otp_backend : Version → Backend D
  otp_backend v = record {
    version = v;
    set_mode = otp_set_mode;
    read_config = otp_read_config;
    write_config = otp_write_config;
  }

-- `_ManagementSmartCardBackend`, on `SmartCardProtocol.send_apdu` with `cla`, `p2` and `le` 0.
module _ {D : Type 0} (send_apdu : ℕ → ℕ → Bytes → Io D Bytes) where
  unfoldable pub card_set_mode : Version → Bytes → Io D Unit
  card_set_mode v data_ = do
    _ ← if v.major == 3 then send_apdu 0x01 0x11 data_ else send_apdu 0x16 0x11 data_
    pure tt

  unfoldable pub card_read_config : ℕ → Io D Bytes
  card_read_config page = send_apdu 0x1d page []

  unfoldable pub card_write_config : Bytes → Io D Unit
  card_write_config config = do _ ← send_apdu 0x1c 0 config; pure tt

  abbrev pub card_backend : Version → Backend D
  card_backend v = record {
    version = v;
    set_mode = card_set_mode v;
    read_config = card_read_config;
    write_config = card_write_config;
  }

-- `_ManagementCtapBackend`: its calls on the connection, and the version, which is a guess for what
-- is no YubiKey 4 and does not have CBOR at version 0.
unfoldable pub ctap_version : Bool → Version → Version
ctap_version has_cbor v =
    if ltb v.major 4 && not (v.major == 0 && has_cbor) then version 3 0 0 else v

module _ {D : Type 0} (call : ℕ → Bytes → Io D Bytes) where
  unfoldable pub ctap_set_mode : Bytes → Io D Unit
  ctap_set_mode data_ = do _ ← call 0x40 data_; pure tt

  unfoldable pub ctap_read_config : ℕ → Io D Bytes
  ctap_read_config page = call 0x42 (int2bytes page 0)

  unfoldable pub ctap_write_config : Bytes → Io D Unit
  ctap_write_config config = do _ ← call 0x43 config; pure tt

  abbrev pub ctap_backend : Bool → Version → Backend D
  ctap_backend has_cbor v = record {
    version = ctap_version has_cbor v;
    set_mode = ctap_set_mode;
    read_config = ctap_read_config;
    write_config = ctap_write_config;
  }

-- `data.pop(TAG_MORE_DATA, 0) == b"\1"`
abbrev pub more_data : Dict Bytes → Bool
more_data d = elim (get d 0x10) [ none ↦ false | some b ↦ is_one b ]

-- A lock code, where there is one, has 16 bytes.
abbrev pub lock_code_fits : Option Bytes → Bool
lock_code_fits none = true
lock_code_fits (some c) = length c == 16

abbrev pub has_interface : ℕ → ℕ → Bool
has_interface flag interfaces = bit_and interfaces flag == flag

-- The capabilities behind the interfaces of a mode.
unfoldable pub mode_capabilities : ℕ → ℕ
mode_capabilities interfaces =
    let c1 = if has_interface 1 interfaces then 0x01 else 0 in
    let c2 = if has_interface 4 interfaces then bit_or c1 0x538 else c1 in
    if has_interface 2 interfaces then bit_or c2 0x202 else c2

-- The code of a mode, with the flag for touch-eject.
unfoldable pub mode_code : Mode → Option ℕ → Result ℕ
mode_code mode none = ok mode.code
mode_code mode (some t) =
    if mode.interfaces == 4 then ok (bit_or mode.code 0x80) else err value_error

-- `ManagementSession`; `override` is the version that replaces a development device's.
module _ {D : Type 0} (override : Option Version) (backend : Backend D) where
  -- `while more_data`, on fuel: one page a round.
  unfoldable pub read_pages : ℕ → ℕ → Dict Bytes → Io D (Dict Bytes)
  read_pages zero page tlvs = raise out_of_fuel
  read_pages (suc fuel) page tlvs = do
    encoded ← backend.read_config page
    body ← lift (unframe encoded)
    data_ ← lift (parse_dict body)
    let merged = update tlvs (remove data_ 0x10)
    if more_data data_ then read_pages fuel (page + 1) merged else pure merged

  unfoldable pub read_device_info : ℕ → Io D DeviceInfo
  read_device_info fuel = do
    lift (require_version override backend.version (4 ∷ 1 ∷ 0 ∷ []))
    tlvs ← read_pages fuel 0 []
    lift (parse_tlvs tlvs backend.version)

  unfoldable pub write_device_config :
      Option DeviceConfig → Bool → Option Bytes → Option Bytes → Io D Unit
  write_device_config config reboot cur_lock_code new_lock_code = do
    lift (require_version override backend.version (5 ∷ 0 ∷ 0 ∷ []))
    if not (lock_code_fits cur_lock_code && lock_code_fits new_lock_code)
        then raise value_error
        else (do
          encoded ← lift (
              get_bytes (elim config [ none ↦ default_config | some c ↦ c ]) reboot cur_lock_code
                new_lock_code)
          backend.write_config encoded)

  -- `set_mode` from version 5 on: a device configuration.
  unfoldable pub set_mode_config : ℕ → Mode → ℕ → Option ℕ → Io D Unit
  set_mode_config fuel mode chalresp_timeout auto_eject_timeout = do
    info ← read_device_info fuel
    let supported : ℕ = elim info.supported_capabilities.usb [ none ↦ 0 | some c ↦ c ]
    write_device_config
        (some (record {
          enabled_capabilities = record {
            usb = some (bit_and (mode_capabilities mode.interfaces) supported);
            nfc = none;
          };
          auto_eject_timeout = auto_eject_timeout;
          challenge_response_timeout = some chalresp_timeout;
          device_flags = none;
          nfc_restricted = none;
        }))
        false none none

  -- `set_mode` before version 5: four bytes.
  unfoldable pub set_mode_legacy : Mode → ℕ → Option ℕ → Io D Unit
  set_mode_legacy mode chalresp_timeout auto_eject_timeout = do
    code ← lift (mode_code mode auto_eject_timeout)
    a ← lift (pack_b code)
    b ← lift (pack_b chalresp_timeout)
    c ← lift (pack_le16 (elim auto_eject_timeout [ none ↦ 0 | some t ↦ t ]))
    backend.set_mode (a ++ (b ++ c))

  unfoldable pub set_mode : ℕ → Mode → ℕ → Option ℕ → Io D Unit
  set_mode fuel mode chalresp_timeout auto_eject_timeout =
      if is_since backend.version (5 ∷ 0 ∷ 0 ∷ [])
      then set_mode_config fuel mode chalresp_timeout auto_eject_timeout
      else set_mode_legacy mode chalresp_timeout auto_eject_timeout
