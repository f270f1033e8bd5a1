-- ===== src/Otp/Frame/Layout.antt =====
-- The frame as the device sees it: reports, written to a buffer at the place that their sequence
-- number names.
use yubikey_manager.Prelude.{
  ℕ, zero, suc, ◌+◌, ◌*◌, ◌/◌, ◌%◌, ◌<◌, ◌≡◌, ◌∙◌, ap, sym, refl, true, false, [], ◌∷◌, ◌++◌, arith,
  bit_and, bit_or, ◌==◌, ==_iff, lt→ltb, length, take, drop, replicate, length-append, append_assoc,
  none, some, get_elem?, get_elem?_middle, All,
}
use yubikey_manager.Prelude.Bits.{all_below, all_below_sound}
use yubikey_manager.Core.Error.{ok}
use yubikey_manager.Core.Bytes.{Bytes, IsByte, pack_b, pack_le16}
use yubikey_manager.Core.Bytes.Slices.{take_to, drop_from}
use yubikey_manager.Otp.Crc.{calculate_crc}
use yubikey_manager.Otp.Crc.Residual.{calculate_crc-lt}
use yubikey_manager.Otp.Frame.{should_send, any_set, format_frame}

abbrev pub zeros : ℕ → Bytes
zeros n = replicate n 0

-- Seven bytes written into a buffer from `at` on.
unfoldable pub overwrite : Bytes → ℕ → Bytes → Bytes
overwrite buffer at xs = take at buffer ++ (xs ++ drop (at + length xs) buffer)

-- The device's reaction to a report: the last byte has the sequence number.
unfoldable pub place : Bytes → Bytes → Bytes
unfolding overwrite
place buffer report = elim (get_elem? report 7) [
  | none ↦ buffer
  | some flags ↦ overwrite buffer (7 * bit_and flags 0x1f) (take 7 report)
]

any_set-zeros : (c : Bytes) → any_set c ≡ false → c ≡ zeros (length c)
unfolding any_set
any_set-zeros [] h = refl
any_set-zeros (b ∷ bs) h = ground (arith, any_set-zeros bs)

-- A report that is skipped is zero.
pub skipped_zero : (c : Bytes) (seq : ℕ) → should_send c seq ≡ false → c ≡ zeros (length c)
unfolding should_send
skipped_zero c seq h = any_set-zeros c (ground arith)

seq_table : all_below 32 (λ seq. bit_and (bit_or 0x80 seq) 0x1f == seq) ≡ true
seq_table = unfold all_below in refl

seq_back : (seq : ℕ) → seq < 32 → bit_and (bit_or 0x80 seq) 0x1f ≡ seq
seq_back seq h =
    (==_iff _ seq).0
      (all_below_sound 32 (λ seq. bit_and (bit_or 0x80 seq) 0x1f == seq) seq seq_table h)

flag_table : all_below 32 (λ seq. bit_or 0x80 seq == 128 + seq) ≡ true
flag_table = unfold all_below in refl

pub flag_value : (seq : ℕ) → seq < 32 → bit_or 0x80 seq ≡ 128 + seq
flag_value seq h =
    (==_iff _ _).0 (all_below_sound 32 (λ seq. bit_or 0x80 seq == 128 + seq) seq flag_table h)

pub zeros-append : (m n : ℕ) → zeros (m + n) ≡ zeros m ++ zeros n
zeros-append zero n = ap zeros (omega arith)
zeros-append (suc m) n = ap zeros suc_out ∙ ap (λ z. 0 ∷ z) (zeros-append m n)
  where
    suc_out : suc m + n ≡ suc (m + n)
    suc_out = omega arith

report_parts :
    (c : Bytes) (flag : ℕ)
    → length c ≡ 7
    → (get_elem? (c ++ (flag ∷ [])) 7 ≡ some flag) × (take 7 (c ++ (flag ∷ [])) ≡ c)
report_parts c flag h = (
  ap (get_elem? (c ++ (flag ∷ []))) (sym h) ∙ get_elem?_middle c flag [],
  take_to c (flag ∷ []) 7 (sym h),
)

overwrite_next :
    (done c : Bytes) (n : ℕ)
    → length c ≡ 7
    → overwrite (done ++ zeros (7 + n)) (length done) c ≡ (done ++ c) ++ zeros n
unfolding overwrite
overwrite_next done c n hc =
    ap (λ t. t ++ (c ++ drop (length done + length c) (done ++ zeros (7 + n))))
      (take_to done (zeros (7 + n)) (length done) refl)
    ∙ ap (λ t. done ++ (c ++ t))
        (ap (λ z. drop (length done + length c) (done ++ z)) (zeros-append 7 n)
          ∙ ap (drop (length done + length c)) (sym (append_assoc done (zeros 7) (zeros n)))
          ∙ drop_from (done ++ zeros 7) (zeros n) (length done + length c)
              (omega (arith, length-append done (zeros 7))))
    ∙ sym (append_assoc done c (zeros n))

-- The next report goes behind what was written, into the zeros.
pub place_next :
    (done c : Bytes) (seq n : ℕ)
    → length done ≡ 7 * seq
    → length c ≡ 7
    → seq < 32
    → place (done ++ zeros (7 + n)) (c ++ (bit_or 0x80 seq ∷ [])) ≡ (done ++ c) ++ zeros n
unfolding place
place_next done c seq n hd hc hs =
    let parts = report_parts c (bit_or 0x80 seq) hc in
    rw (parts.0, place)
      (rw (parts.1) (rw (seq_back seq hs) (rw (← hd) (overwrite_next done c n hc))))

-- A frame has 70 bytes: the payload, the slot, the checksum with its low byte first, three zeros.
pub format_frame_lem :
    (slot : ℕ) (payload : Bytes)
    → slot < 256
    → All IsByte payload
    → format_frame slot payload
      ≡ ok (
          payload
          ++ (slot ∷ calculate_crc payload % 256 ∷ calculate_crc payload / 256 ∷ 0 ∷ 0 ∷ 0 ∷ []))
unfolding format_frame pack_b pack_le16
format_frame_lem slot payload h b =
    rw (lt→ltb slot 256 h) (rw (lt→ltb (calculate_crc payload) 65536 (calculate_crc-lt payload b)))
