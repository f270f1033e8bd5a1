-- ===== src/Otp/Modhex/RoundTrip.antt =====
-- Modhex is read back byte by byte, and only texts that it writes are read.
use yubikey_manager.Prelude.{
  ℕ, ◌*◌, ◌/◌, ◌%◌, ◌<◌, ◌≡◌, ap, refl, Bool, true, false, List, [], ◌∷◌, arith, bit_and, ◌==◌,
  ==_iff, length, All,
}
use yubikey_manager.Prelude.Bits.{all_below, all_below_sound, mask_15}
use yubikey_manager.Core.Error.{Result, ok, err}
use yubikey_manager.Core.Bytes.{Bytes, IsByte, byte_at}
use yubikey_manager.Otp.Modhex.{alphabet, modhex_encode, decode_pair, decode_pairs, modhex_decode}

abbrev is_value : Result ℕ → ℕ → Bool
is_value (ok c) b = c == b
is_value (err e) b = false

is_value_sound : (r : Result ℕ) (b : ℕ) → is_value r b ≡ true → r ≡ ok b
is_value_sound (ok c) b h = ap ok ((==_iff c b).0 h)
is_value_sound (err e) b h = absurd (cc)

-- The character for four bits; 0 past the end.
char_of : ℕ → ℕ
char_of i = elim (byte_at alphabet i) [ ok c ↦ c | err e ↦ 0 ]

char_table : all_below 16 (λ i. is_value (byte_at alphabet i) (char_of i)) ≡ true
unfolding all_below char_of
char_table = refl

byte_at-alphabet : (i : ℕ) → i < 16 → byte_at alphabet i ≡ ok (char_of i)
byte_at-alphabet i h =
    is_value_sound _ _
      (all_below_sound 16 (λ i. is_value (byte_at alphabet i) (char_of i)) i char_table h)

abbrev survives : ℕ → Bool
survives b = is_value (decode_pair (char_of (b / 16)) (char_of (bit_and b 0xf))) b

survives_table : all_below 256 survives ≡ true
unfolding all_below decode_pair char_of
survives_table = refl

decode_pair-chars :
    (b : ℕ) → b < 256 → decode_pair (char_of (b / 16)) (char_of (bit_and b 0xf)) ≡ ok b
decode_pair-chars b h = is_value_sound _ b (all_below_sound 256 survives b survives_table h)

encode_step :
    (b : ℕ) (bs s : Bytes)
    → b < 256
    → modhex_encode bs ≡ ok s
    → modhex_encode (b ∷ bs) ≡ ok (char_of (b / 16) ∷ char_of (bit_and b 0xf) ∷ s)
unfolding modhex_encode
encode_step b bs s h e =
    rw (byte_at-alphabet (b / 16) (omega arith))
      (rw (byte_at-alphabet (bit_and b 0xf) (omega (arith, mask_15 b))) (rw e))

decode_step :
    (b : ℕ) (bs s : Bytes)
    → b < 256
    → decode_pairs s ≡ ok bs
    → decode_pairs (char_of (b / 16) ∷ char_of (bit_and b 0xf) ∷ s) ≡ ok (b ∷ bs)
unfolding decode_pairs
decode_step b bs s h e = rw (decode_pair-chars b h) (rw e)

-- The modhex text of some bytes: two characters for each, and it decodes to them.
record IsModhexOf (data_ s : Bytes) : Type 0 where
  encoded : modhex_encode data_ ≡ ok s
  decoded : decode_pairs s ≡ ok data_
  size : length s ≡ 2 * length data_

modhex_of : (data_ : Bytes) → All IsByte data_ → (s : Bytes) × IsModhexOf data_ s
modhex_of [] h = (
  [],
  record {
    encoded = unfold modhex_encode in refl;
    decoded = unfold decode_pairs in refl;
    size = refl;
  },
)
modhex_of (b ∷ bs) h =
    let (s, m) = modhex_of bs h.1 in
    (
      char_of (b / 16) ∷ char_of (bit_and b 0xf) ∷ s,
      record {
        encoded = encode_step b bs s h.0 m.encoded;
        decoded = decode_step b bs s h.0 m.decoded;
        size = omega (arith, m.size);
      },
    )

-- `modhex_encode` succeeds on every byte string, with two characters a byte, and `modhex_decode`
-- returns the bytes.
pub modhex_decode-encode :
    (data_ : Bytes)
    → All IsByte data_
    → (s : List ℕ) × (modhex_encode data_ ≡ ok s)
      × (length s ≡ 2 * length data_)
      × (modhex_decode s ≡ ok data_)
unfolding modhex_decode
modhex_decode-encode data_ h =
    let (s, m) = modhex_of data_ h in
    let even : (length s % 2 == 0) ≡ true = (==_iff (length s % 2) 0).1 (omega (arith, m.size)) in
    (s, m.encoded, m.size, rw even m.decoded)
