-- ===== src/Otp/Tests.antt =====
-- The theorems on yubikit/core/otp.py at concrete inputs and devices.
use yubikey_manager.Prelude.{
  ℕ, ◌-◌, ◌*◌, ◌/◌, ◌%◌, ◌≤◌, ◌≡◌, refl, arith, true, false, List, [], ◌∷◌, ◌++◌, length, replicate,
  All,
}
use yubikey_manager.Core.Error.{Result, ok, err, io_error}
use yubikey_manager.Core.Bytes.{Bytes}
use yubikey_manager.Otp.Crc.{calculate_crc, check_crc}
use yubikey_manager.Otp.Crc.Residual.{check_crc-inverted}
use yubikey_manager.Otp.Modhex.{modhex_encode, modhex_decode}
use yubikey_manager.Otp.Modhex.RoundTrip.{modhex_decode-encode}
use yubikey_manager.Otp.Frame.Layout.{zeros, place}
use yubikey_manager.Otp.Protocol.{
  Host, receive, receive_byte, await_loop, await_ready_to_write, send_frame, read_frame,
}
use yubikey_manager.Otp.Protocol.Sending.{Buffered, send_frame_lem}
use yubikey_manager.Otp.Protocol.Reading.{
  Answering, Signal, IsSignal, chunk, busy, reports, answer, packets, read_frame_lem,
}

check_crc-inverted_example :
    check_crc (
      (1 ∷ 2 ∷ 250 ∷ [])
      ++ ((0xffff - calculate_crc (1 ∷ 2 ∷ 250 ∷ [])) % 256
          ∷ (0xffff - calculate_crc (1 ∷ 2 ∷ 250 ∷ [])) / 256
          ∷ []))
    ≡ true
check_crc-inverted_example = check_crc-inverted (1 ∷ 2 ∷ 250 ∷ []) (omega arith)

modhex_decode-encode_example :
    (s : List ℕ) × (modhex_encode (0x2d ∷ 0xff ∷ []) ≡ ok s)
    × (length s ≡ 2 * length {A = ℕ} (0x2d ∷ 0xff ∷ []))
    × (modhex_decode s ≡ ok (0x2d ∷ 0xff ∷ []))
modhex_decode-encode_example = modhex_decode-encode (0x2d ∷ 0xff ∷ []) (omega arith)

-- A device that is its buffer, and always ready.
abbrev buffer_host : Host Bytes
buffer_host = record {
  receive = λ d. (ok (zeros 8), d);
  send = λ r d. (ok tt, place d r);
  wait = λ d. (ok false, d);
  on_keepalive = λ n d. (ok tt, d);
}

buffer_ready : (d : Bytes) → await_ready_to_write buffer_host d ≡ (ok tt, d)
unfolding await_ready_to_write await_loop receive_byte receive
buffer_ready d = refl

abbrev buffer_device : Buffered buffer_host
buffer_device = record {
  buffer = λ d. d;
  ready = λ d. (d, buffer_ready d, refl);
  takes = λ r d. (place d r, refl, refl);
}

abbrev some_frame : Bytes
some_frame = 7 ∷ (zeros 62 ++ replicate 7 9)

first_status : receive_byte buffer_host 4 (zeros 70) ≡ (ok 0, zeros 70)
unfolding receive_byte receive
first_status = refl

send_frame_example :
    (d' : Bytes) × (send_frame buffer_host some_frame (zeros 70) ≡ (ok 0, d')) × (d' ≡ some_frame)
send_frame_example =
    send_frame_lem buffer_host buffer_device some_frame 0 (zeros 70) (zeros 70) refl first_status
      refl

-- A device that is the list of its reports.
abbrev next_report : List Bytes → Result Bytes × List Bytes
next_report [] = (err io_error, [])
next_report (r ∷ rs) = (ok r, rs)

abbrev report_host : Host (List Bytes)
report_host = record {
  receive = next_report;
  send = λ r d. (ok tt, d);
  wait = λ d. (ok false, d);
  on_keepalive = λ n d. (ok tt, d);
}

abbrev report_device : Answering report_host
report_device = record {
  incoming = λ d. d;
  next = λ d r rs e. (rs, rw e, refl);
  resets = λ r d. (d, refl, refl);
  notes = λ n d. (d, refl, refl);
  waits = λ d. (d, refl, refl);
}

-- Two packets, with a report between them that the user is waited for.
abbrev signals : List Signal
signals = chunk (replicate 7 1) ∷ busy (zeros 7) 0x20 ∷ chunk (replicate 7 2) ∷ []

signals-IsSignal : All IsSignal signals
signals-IsSignal = (refl, ((refl, omega arith, refl), (refl, tt)))

two_packets : 1 ≤ packets signals
unfolding packets
two_packets = omega arith

few_packets : packets signals ≤ 32
unfolding packets
few_packets = omega arith

read_frame_example :
    (d' : List Bytes) × (read_frame report_host 4 3
        (reports 0 signals ++ ((zeros 7 ++ (0x40 ∷ [])) ∷ []))
      ≡ (ok (answer signals), d'))
    × (d' ≡ [])
read_frame_example =
    read_frame_lem report_host report_device signals 3 4 (zeros 7) []
      (reports 0 signals ++ ((zeros 7 ++ (0x40 ∷ [])) ∷ [])) signals-IsSignal refl (omega arith)
      two_packets few_packets refl
