-- ===== src/Otp/Protocol.antt =====
-- yubikit/core/otp.py: the class `OtpProtocol`.
pub mod Sending
pub mod Reading
use yubikey_manager.Prelude.{
  ℕ, zero, suc, ◌+◌, ◌-◌, ◌%◌, Bool, true, false, ◌&&◌, ◌||◌, not, List, [], ◌∷◌, ◌++◌, bit_and,
  bit_or, ltb, ◌==◌, if◌then◌else◌, length, take, drop, replicate,
}
use yubikey_manager.Core.Error.{
  Error, Result, ok, err, value_error, io_error, timeout, command_rejected, out_of_fuel,
}
use yubikey_manager.Core.Io.{Io, pure, raise, lift, ◌>>=◌, ◌>>◌}
use yubikey_manager.Core.Bytes.{Bytes, byte_at, slice, pack_b, rjust, ljust}
use yubikey_manager.Core.Version.{Version, from_bytes}
use yubikey_manager.Otp.Frame.{
  feature_rpt_size, feature_rpt_data_size, slot_data_size, resp_pending_flag, slot_write_flag,
  resp_timeout_wait_flag, sequence_mask, status_offset_prog_seq, status_offset_touch_low,
  config_status_mask, status_processing, status_upneeded, should_send, format_frame,
}

-- What the program calls and does not implement: the HID connection, the `Event` of the caller
-- and its keepalive callback, on a state of the world `D`.
pub record Host (D : Type 0) : Type 0 where
  pub receive : Io D Bytes
  pub send : Bytes → Io D Unit
  pub wait : Io D Bool
  pub on_keepalive : ℕ → Io D Unit

-- `except CommandRejectedError: pass`
abbrev ignore_rejected : {D : Type 0} → Version → Result Bytes × D → Result Version × D
ignore_rejected v (ok response, d) = (ok v, d)
ignore_rejected v (err Error.command_rejected, d) = (ok v, d)
ignore_rejected v (err e, d) = (err e, d)

module _ {D : Type 0} (host : Host D) where
  -- `_receive`
  unfoldable pub receive : Io D Bytes
  receive = do
    report ← host.receive
    if length report == feature_rpt_size then pure report else raise io_error

  -- `_receive()[i]`
  unfoldable pub receive_byte : ℕ → Io D ℕ
  receive_byte i = do report ← receive; lift (byte_at report i)

  unfoldable pub read_status : Io D Bytes
  read_status = do report ← receive; pure (slice 1 (feature_rpt_size - 1) report)

  -- The tries that are left.
  unfoldable pub await_loop : ℕ → Io D Unit
  await_loop zero = raise io_error
  await_loop (suc n) = do
    flags ← receive_byte feature_rpt_data_size
    if bit_and flags slot_write_flag == 0 then pure tt else await_loop n

  unfoldable pub await_ready_to_write : Io D Unit
  await_ready_to_write = await_loop 20

  unfoldable pub send_report : Bytes → ℕ → Io D Unit
  send_report report seq =
      if should_send report seq
      then (do
        flag ← lift (pack_b (bit_or 0x80 seq))
        await_ready_to_write
        host.send (report ++ flag))
      else pure tt

  -- `while buf`, on fuel: each round takes seven bytes.
  unfoldable pub send_loop : ℕ → Bytes → ℕ → Io D Unit
  send_loop fuel [] seq = pure tt
  send_loop zero (b ∷ bs) seq = raise out_of_fuel
  send_loop (suc fuel) (b ∷ bs) seq = do
    send_report (take feature_rpt_data_size (b ∷ bs)) seq
    send_loop fuel (drop feature_rpt_data_size (b ∷ bs)) (seq + 1)

  unfoldable pub send_frame : Bytes → Io D ℕ
  send_frame buf = do
    prog_seq ← receive_byte status_offset_prog_seq
    send_loop (length buf) buf 0
    pure prog_seq

  unfoldable pub reset_state : Io D Unit
  reset_state = host.send (rjust feature_rpt_size 0 (0xff ∷ []))

  -- What a status response means, when no data was read before it.
  unfoldable pub status_response : ℕ → Bytes → Bool → Io D Bytes
  status_response prog_seq report needs_touch = do
    next_prog_seq ← lift (byte_at report status_offset_prog_seq)
    touch ← lift (byte_at report status_offset_touch_low)
    if next_prog_seq == prog_seq + 1
          || (ltb 0 prog_seq && (next_prog_seq == 0 && bit_and touch config_status_mask == 0))
        then pure (slice 1 (feature_rpt_size - 1) report)
        else if needs_touch
        then raise timeout
        else raise command_rejected

  -- The device is busy: tell the caller why, then wait; the caller may cancel.
  unfoldable pub keep_waiting : ℕ → Io D Unit
  keep_waiting status_byte = do
    host.on_keepalive (
        if bit_and status_byte resp_timeout_wait_flag == 0
        then status_processing
        else status_upneeded)
    cancelled ← host.wait
    if cancelled then (do reset_state; raise timeout) else pure tt

  -- `while True` of `_read_frame`, on fuel: one report a round.
  unfoldable pub read_loop : ℕ → ℕ → Bytes → ℕ → Bool → Io D Bytes
  read_loop zero prog_seq response seq needs_touch = raise out_of_fuel
  read_loop (suc fuel) prog_seq response seq needs_touch = do
    report ← receive
    status_byte ← lift (byte_at report feature_rpt_data_size)
    let packet = bit_and status_byte sequence_mask
    if not (bit_and status_byte resp_pending_flag == 0)
        then if seq == packet
          then read_loop fuel prog_seq (response ++ take feature_rpt_data_size report) (seq + 1)
              needs_touch
          else if packet == 0
          then (do reset_state; pure response)
          else read_loop fuel prog_seq response seq needs_touch
        else if status_byte == 0
        then if length response == 0
          then status_response prog_seq report needs_touch
          else raise io_error
        else (do
          keep_waiting status_byte
          read_loop fuel prog_seq response seq
              (needs_touch || not (bit_and status_byte resp_timeout_wait_flag == 0)))

  unfoldable pub read_frame : ℕ → ℕ → Io D Bytes
  read_frame fuel prog_seq = read_loop fuel prog_seq [] 0 false

  -- `send_and_receive`, with the fuel for the reports of the answer.
  unfoldable pub send_and_receive : ℕ → ℕ → Bytes → Io D Bytes
  send_and_receive fuel slot data_ = do
    let payload = ljust slot_data_size 0 data_
    if ltb slot_data_size (length payload) then raise value_error else (do
      frame ← lift (format_frame slot payload)
      prog_seq ← send_frame frame
      read_frame fuel prog_seq)

  -- `__init__`: the version; a NEO is sent an invalid scan map, which it rejects.
  unfoldable pub connect : ℕ → Io D Version
  connect fuel = do
    report ← receive
    version ← lift (from_bytes (slice 1 4 report))
    if version.major == 3
        then (λ d. ignore_rejected version (send_and_receive fuel 0x12 (replicate 51 b'c') d))
        else pure version
