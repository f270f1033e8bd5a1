-- ===== src/YubiOtp/Session.antt =====
-- yubikit/yubiotp.py: the two backends and the operations of `YubiOtpSession`.
pub mod Updates
pub mod Challenges
use yubikey_manager.Prelude.{
  ℕ, zero, suc, ◌+◌, ◌-◌, Bool, true, false, not, ◌&&◌, ◌||◌, Option, none, some, List, [], ◌∷◌,
  ◌++◌, reverse, bit_and, ltb, ◌==◌, if◌then◌else◌, length, take, replicate,
}
use yubikey_manager.Core.Error.{
  Error, Result, ok, err, bad_response, not_supported, command_rejected,
}
use yubikey_manager.Core.Io.{Io, pure, raise, lift, ◌>>=◌, ◌>>◌}
use yubikey_manager.Core.Bytes.{Bytes, byte_at, bytes2int, ljust}
use yubikey_manager.Core.Version.{Version, is_between, from_bytes, require_version}
use yubikey_manager.Otp.Crc.{check_crc}
use yubikey_manager.Otp.Protocol.{Host, send_and_receive}
use yubikey_manager.YubiOtp.Slot.{Slot, is_supported_by, get_config}
use yubikey_manager.YubiOtp.Ndef.{NdefType, build_ndef_config}
use yubikey_manager.YubiOtp.State.{SlotId, map_slot}

-- `_Backend`
pub record Backend (D : Type 0) : Type 0 where
  pub write_update : ℕ → Bytes → Io D Bytes
  pub exchange : ℕ → Bytes → ℕ → Io D Bytes

-- `_YubiOtpOtpBackend.send_and_receive`, with the fuel for the reports of an answer
unfoldable pub otp_exchange : {D : Type 0} → Host D → ℕ → ℕ → Bytes → ℕ → Io D Bytes
otp_exchange host fuel slot data_ expected_len = do
  response ← send_and_receive host fuel slot data_
  if check_crc (take (expected_len + 2) response)
      then pure (take expected_len response)
      else raise bad_response

-- `write_update` hands its arguments on.
abbrev pub otp_backend : {D : Type 0} → Host D → ℕ → Backend D
otp_backend host fuel = record {
  write_update = send_and_receive host fuel;
  exchange = otp_exchange host fuel;
}

-- A `_YubiOtpSmartCardBackend`: its `_prog_seq`, beside the state of the world.
pub record Card (D : Type 0) : Type 0 where
  pub world : D
  pub prog_seq : ℕ

-- Whether a status, with a programming sequence number, says that the write took place.
unfoldable pub is_updated : ℕ → ℕ → Bytes → Result Bool
is_updated prev seq status =
    if seq == prev + 1
    then ok true
    else if seq == 0 && ltb 0 prev
    then written_or_exempt (from_bytes (take 3 status)) (byte_at status 4)
    else ok false
  where
    written_or_exempt : Result Version → Result ℕ → Result Bool
    written_or_exempt (err e) b = err e
    written_or_exempt (ok v) (err e) = err e
    written_or_exempt (ok v) (ok b) =
        ok (bit_and b 0x1f == 0 || is_between (5 ∷ 0 ∷ 0 ∷ []) v (5 ∷ 4 ∷ 3 ∷ []))

module _ {D : Type 0} (send_apdu : ℕ → ℕ → Bytes → Io D Bytes) where
  -- `send_apdu` with `cla`, `p2` and `le` 0; its arguments are `ins`, `p1` and the data.
  abbrev on_world : Io D Bytes → Io (Card D) Bytes
  on_world m s = let (r, d) = m s.world in (r, record s { world = d })

  -- `self._prog_seq = ...`, with the value it had
  abbrev swap_prog_seq : ℕ → Io (Card D) ℕ
  swap_prog_seq seq s = (ok s.prog_seq, record s { prog_seq = seq })

  -- The status of a write: some keys answer nothing, and are asked for it.
  unfoldable pub card_status : ℕ → Bytes → Io (Card D) Bytes
  card_status slot data_ = do
    status ← on_world (send_apdu 0x01 slot data_)
    if length status == 0 then on_world (send_apdu 0x03 0 []) else pure status

  unfoldable pub card_write_update : ℕ → Bytes → Io (Card D) Bytes
  card_write_update slot data_ = do
    status ← card_status slot data_
    seq ← lift (byte_at status 3)
    prev ← swap_prog_seq seq
    updated ← lift (is_updated prev seq status)
    if updated then pure status else raise command_rejected

  unfoldable pub card_exchange : ℕ → Bytes → ℕ → Io (Card D) Bytes
  card_exchange slot data_ expected_len = do
    response ← on_world (send_apdu 0x01 slot data_)
    if expected_len == length response then pure response else raise bad_response

  abbrev pub card_backend : Backend (Card D)
  card_backend = record { write_update = card_write_update; exchange = card_exchange }

-- `challenge.endswith(b"\0")`
unfoldable pub ends_in_zero : Bytes → Bool
ends_in_zero bs = elim (reverse bs) [ [] ↦ false | b ∷ rest ↦ b == 0 ]

-- The challenge, padded with a byte that its last byte is not.
unfoldable pub pad_challenge : Bytes → Bytes
pad_challenge challenge = ljust 64 (if ends_in_zero challenge then 1 else 0) challenge

-- `cur_acc_code or b"\0" * ACC_CODE_SIZE`
abbrev pub code_or_zeros : Option Bytes → Bytes
code_or_zeros none = replicate 6 0
code_or_zeros (some c) = if length c == 0 then replicate 6 0 else c

same_bytes : Bytes → Bytes → Bool
same_bytes [] [] = true
same_bytes (x ∷ xs) (y ∷ ys) = x == y && same_bytes xs ys
same_bytes _ _ = false

-- `a == b`, for access codes that may be `None`
unfoldable pub same_code : Option Bytes → Option Bytes → Bool
unfolding same_bytes
same_code none none = true
same_code (some a) (some b) = same_bytes a b
same_code _ _ = false

-- A `YubiOtpSession`: its `_status`, beside the state of the backend.
pub record Session (D : Type 0) : Type 0 where
  pub world : D
  pub status : Bytes

module _ {D : Type 0} (override : Option Version) (backend : Backend D) (version : Version) where
  abbrev ask : Io D Bytes → Io (Session D) Bytes
  ask m s = let (r, d) = m s.world in (r, record s { world = d })

  abbrev set_status : Bytes → Io (Session D) Unit
  set_status status s = (ok tt, record s { status = status })

  unfoldable pub get_serial : Io (Session D) ℕ
  get_serial = do b ← ask (backend.exchange 0x10 [] 4); pure (bytes2int b)

  -- `_write_config`
  unfoldable pub write_config : ℕ → Bytes → Option Bytes → Io (Session D) Unit
  write_config slot config cur_acc_code = do
    status ← ask (backend.write_update slot (config ++ code_or_zeros cur_acc_code))
    set_status status

  unfoldable pub put_configuration :
      SlotId → Slot → Option Bytes → Option Bytes → Io (Session D) Unit
  put_configuration slot configuration acc_code cur_acc_code =
      if not (is_supported_by configuration version) then raise not_supported else (do
        config ← lift (get_config configuration acc_code)
        write_config (map_slot slot 1 3) config cur_acc_code)

  unfoldable pub update_configuration :
      SlotId → Slot → Option Bytes → Option Bytes → Io (Session D) Unit
  update_configuration slot configuration acc_code cur_acc_code =
      if not (is_supported_by configuration version)
      then raise not_supported
      else if not (same_code acc_code cur_acc_code)
          && is_between (4 ∷ 3 ∷ 2 ∷ []) version (4 ∷ 3 ∷ 6 ∷ [])
      then raise not_supported
      else (do
        config ← lift (get_config configuration acc_code)
        write_config (map_slot slot 4 5) config cur_acc_code)

  unfoldable pub swap_slots : Io (Session D) Unit
  swap_slots = write_config 6 [] none

  unfoldable pub delete_slot : SlotId → Option Bytes → Io (Session D) Unit
  delete_slot slot cur_acc_code = write_config (map_slot slot 1 3) (replicate 52 0) cur_acc_code

  unfoldable pub set_scan_map : Bytes → Option Bytes → Io (Session D) Unit
  set_scan_map scan_map cur_acc_code = write_config 0x12 scan_map cur_acc_code

  unfoldable pub set_ndef_configuration :
      SlotId → Option Bytes → Option Bytes → NdefType → Io (Session D) Unit
  set_ndef_configuration slot uri cur_acc_code ndef_type = do
    config ← lift (build_ndef_config uri ndef_type)
    write_config (map_slot slot 8 9) config cur_acc_code

  unfoldable pub calculate_hmac_sha1 : SlotId → Bytes → Io (Session D) Bytes
  calculate_hmac_sha1 slot challenge = do
    lift (require_version override version (2 ∷ 2 ∷ 0 ∷ []))
    ask (backend.exchange (map_slot slot 0x30 0x38) (pad_challenge challenge) 20)
