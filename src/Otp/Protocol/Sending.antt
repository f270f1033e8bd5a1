-- ===== src/Otp/Protocol/Sending.antt =====
-- `_send_frame` against a device that writes each report into its buffer: the device ends up with
-- the frame, whatever reports were skipped.
use yubikey_manager.Prelude.{
  ℕ, zero, suc, ◌+◌, ◌*◌, ◌<◌, ◌≤◌, ◌≡◌, ◌∙◌, ap, sym, refl, true, false, [], ◌∷◌, ◌++◌, arith,
  bit_or, length, take, drop, length-append, append_assoc, length-take, length-drop,
  take-append-drop, Bool-cases, inl, inr, lt→ltb,
}
use yubikey_manager.Core.Error.{ok}
use yubikey_manager.Core.Bytes.{Bytes, pack_b}
use yubikey_manager.Otp.Frame.{should_send}
use yubikey_manager.Otp.Frame.Layout.{
  zeros, zeros-append, place, place_next, skipped_zero, flag_value,
}
use yubikey_manager.Otp.Protocol.{
  Host, await_ready_to_write, send_report, send_loop, send_frame, receive_byte,
}

-- A device with a buffer: it takes every report into the buffer, and it is ready for the next one
-- within the tries that the host makes.
pub record Buffered {D : Type 0} (host : Host D) : Type 0 where
  pub buffer : D → Bytes
  pub ready :
      (d : D) → (d' : D) × (await_ready_to_write host d ≡ (ok tt, d')) × (buffer d' ≡ buffer d)
  pub takes :
      (r : Bytes) (d : D)
      → (d' : D) × (host.send r d ≡ (ok tt, d')) × (buffer d' ≡ place (buffer d) r)

module _ {D : Type 0} (host : Host D) (device : Buffered host) where
  open device use {buffer, ready, takes}

  report_sent :
      (c : Bytes) (seq : ℕ) (d d₁ d₂ : D)
      → should_send c seq ≡ true
      → seq < 32
      → await_ready_to_write host d ≡ (ok tt, d₁)
      → host.send (c ++ (bit_or 0x80 seq ∷ [])) d₁ ≡ (ok tt, d₂)
      → send_report host c seq d ≡ (ok tt, d₂)
  unfolding send_report pack_b
  report_sent c seq d d₁ d₂ hs h r₁ r₂ =
      rw hs (rw (lt→ltb (bit_or 0x80 seq) 256 (omega (arith, flag_value seq h))) (rw r₁ (rw r₂)))

  report_skipped :
      (c : Bytes) (seq : ℕ) (d : D)
      → should_send c seq ≡ false
      → send_report host c seq d ≡ (ok tt, d)
  unfolding send_report
  report_skipped c seq d h = rw h

  report_taken :
      (c done : Bytes) (seq n : ℕ) (d : D)
      → length done ≡ 7 * seq
      → length c ≡ 7
      → seq < 32
      → buffer d ≡ done ++ zeros (7 + n)
      → (d' : D) × (send_report host c seq d ≡ (ok tt, d')) × (buffer d' ≡ (done ++ c) ++ zeros n)
  report_taken c done seq n d hd hc hs hb = elim (Bool-cases (should_send c seq)) [
    | inl sent ↦
        let report : Bytes = c ++ (bit_or 0x80 seq ∷ []) in
        let (d₁, r₁, b₁) = ready d in
        let (d₂, r₂, b₂) = takes report d₁ in
        (
          d₂,
          report_sent c seq d d₁ d₂ sent hs r₁ r₂,
          b₂ ∙ ap (λ b. place b report) (b₁ ∙ hb) ∙ place_next done c seq n hd hc hs,
        )
    | inr skipped ↦ (
      d,
      report_skipped c seq d skipped,
      hb
          ∙ ap (λ z. done ++ z)
              (zeros-append 7 n
                ∙ ap (λ z. z ++ zeros n) (ap zeros (sym hc) ∙ sym (skipped_zero c seq skipped)))
          ∙ sym (append_assoc done c (zeros n)),
    )
  ]

  loop_step :
      (fuel seq : ℕ) (buf : Bytes) (d d' : D)
      → 1 ≤ length buf
      → send_report host (take 7 buf) seq d ≡ (ok tt, d')
      → send_loop host (suc fuel) buf seq d ≡ send_loop host fuel (drop 7 buf) (seq + 1) d'
  unfolding send_loop
  loop_step fuel seq [] d d' h r = absurd (omega arith)
  loop_step fuel seq (b ∷ bs) d d' h r = rw r

  -- `k` reports are still to be made from the rest of the frame.
  rest_taken :
      (k fuel seq : ℕ) (done rest : Bytes) (d : D)
      → length done ≡ 7 * seq
      → length rest ≡ 7 * k
      → k ≤ fuel
      → seq + k ≤ 32
      → buffer d ≡ done ++ zeros (7 * k)
      → (d' : D) × (send_loop host fuel rest seq d ≡ (ok tt, d')) × (buffer d' ≡ done ++ rest)
  rest_taken zero fuel seq done [] d hd hr hf hs hb =
      (d, unfold send_loop in refl, hb ∙ ap (λ z. done ++ zeros z) none_left)
    where
      none_left : 7 * 0 ≡ 0
      none_left = omega arith
  rest_taken zero fuel seq done (b ∷ bs) d hd hr hf hs hb = absurd (omega arith)
  rest_taken (suc k) zero seq done rest d hd hr hf hs hb = absurd (omega arith)
  rest_taken (suc k) (suc fuel) seq done rest d hd hr hf hs hb =
      let c : Bytes = take 7 rest in
      let size : length c ≡ 7 = omega (arith, length-take 7 rest) in
      let (d₁, r₁, b₁) =
        report_taken c done seq (7 * k) d hd size (omega arith)
          (hb ∙ ap (λ z. done ++ zeros z) more) in
      let (d₂, r₂, b₂) =
        rest_taken k fuel (seq + 1) (done ++ c) (drop 7 rest) d₁
          (omega (arith, length-append done c, size)) (omega (arith, length-drop 7 rest))
          (omega arith) (omega arith) b₁ in
      (
        d₂,
        loop_step fuel seq rest d d₁ (omega arith) r₁ ∙ r₂,
        b₂ ∙ append_assoc done c (drop 7 rest) ∙ ap (λ r. done ++ r) (take-append-drop 7 rest),
      )
    where
      more : 7 * suc k ≡ 7 + 7 * k
      more = omega arith

  -- With a device that puts each report into its buffer by the report's sequence number, is
  -- ready within the tries of the program, and has a clear buffer after its first report, a
  -- frame of 70 bytes is what the buffer holds after `_send_frame`, although reports of zeros
  -- are skipped. The program returns the sequence number that the device reported at the start.
  pub send_frame_lem :
      (frame : Bytes) (prog_seq : ℕ) (d d₀ : D)
      → length frame ≡ 70
      → receive_byte host 4 d ≡ (ok prog_seq, d₀)
      → buffer d₀ ≡ zeros 70
      → (d' : D) × (send_frame host frame d ≡ (ok prog_seq, d')) × (buffer d' ≡ frame)
  unfolding send_frame
  send_frame_lem frame prog_seq d d₀ h r b =
      let (d₁, r₁, b₁) =
        rest_taken 10 (length frame) 0 [] frame d₀ (omega arith) h (omega arith) (omega arith) b in
      (d₁, rw r (rw r₁), b₁)
