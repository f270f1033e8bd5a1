-- ===== src/Otp/Frame.antt =====
-- yubikit/core/otp.py: the constants of the HID protocol, `_should_send` and `_format_frame`.
pub mod Layout
use yubikey_manager.Prelude.{
  ℕ, zero, suc, ◌+◌, Bool, true, false, ◌||◌, not, List, [], ◌∷◌, ◌++◌, ◌==◌, length, replicate,
}
use yubikey_manager.Core.Error.{Result, ok, err, ◌>>=◌}
use yubikey_manager.Core.Bytes.{Bytes, pack_b, pack_le16}
use yubikey_manager.Otp.Crc.{calculate_crc}

abbrev pub feature_rpt_size : ℕ
feature_rpt_size = 8

abbrev pub feature_rpt_data_size : ℕ
feature_rpt_data_size = 7

abbrev pub slot_data_size : ℕ
slot_data_size = 64

abbrev pub frame_size : ℕ
frame_size = 70

abbrev pub resp_pending_flag : ℕ
resp_pending_flag = 0x40

abbrev pub slot_write_flag : ℕ
slot_write_flag = 0x80

abbrev pub resp_timeout_wait_flag : ℕ
resp_timeout_wait_flag = 0x20

abbrev pub sequence_mask : ℕ
sequence_mask = 0x1f

abbrev pub status_offset_prog_seq : ℕ
status_offset_prog_seq = 4

abbrev pub status_offset_touch_low : ℕ
status_offset_touch_low = 5

abbrev pub config_status_mask : ℕ
config_status_mask = 0x1f

abbrev pub status_processing : ℕ
status_processing = 1

abbrev pub status_upneeded : ℕ
status_upneeded = 2

-- `any(packet)`
unfoldable pub any_set : Bytes → Bool
any_set [] = false
any_set (b ∷ bs) = not (b == 0) || any_set bs

-- All-zero packets are skipped, but for the first and the last.
unfoldable pub should_send : Bytes → ℕ → Bool
unfolding any_set
should_send packet seq = (seq == 0) || (seq == 9) || any_set packet

-- `payload + struct.pack("<BH", slot, crc) + b"\0\0\0"`
unfoldable pub format_frame : ℕ → Bytes → Result Bytes
format_frame slot payload = do
  slot_byte ← pack_b slot
  crc ← pack_le16 (calculate_crc payload)
  ok (payload ++ (slot_byte ++ (crc ++ (0 ∷ 0 ∷ 0 ∷ []))))
