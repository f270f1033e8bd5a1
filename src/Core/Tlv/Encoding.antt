-- ===== src/Core/Tlv/Encoding.antt =====
-- What `Tlv(tag, value)` writes is what `_tlv_parse` reads.
use yubikey_manager.Prelude.{
  ℕ, suc, ◌+◌, ◌-◌, ◌*◌, ◌%◌, ◌^◌, ◌≤◌, ◌<◌, ◌≡◌, ◌∙◌, ap, sym, refl, [], ◌∷◌, ◌++◌, arith, length,
  foldl, length-append, append_assoc, append-nil, ==_refl, get_elem?_middle, get_elem?, some, true,
  false, Bool-cases, inl, inr, ltb, ◌==◌, bit_or, ltb→lt, ==_iff,
}
use native.Mathlib.Numerals.{add-one}
use yubikey_manager.Prelude.Bits.{mask_31, bit_7, or_byte, all_below, all_below_sound}
use yubikey_manager.Core.Error.{ok}
use yubikey_manager.Core.Bytes.{Bytes, slice, bytes2int, int2bytes, append_digit}
use yubikey_manager.Core.Bytes.Slices.{slice_middle, slice_behind, take_to, drop_from}
use yubikey_manager.Core.Bytes.RoundTrip.{bytes2int-int2bytes, length-int2bytes}
use yubikey_manager.Core.Tlv.{
  Header, Tlv, tag_bytes, read_tag, definite, tlv_parse, parse_header_within, length_bytes, pack,
  init, init_within, value, parse_from_within,
}

-- The bytes of a long tag behind the first: all but the last have their top bit set.
abbrev pub IsTagTail : Bytes → Type 0
IsTagTail [] = ⊥
IsTagTail (b ∷ []) = b < 128
IsTagTail (b ∷ c ∷ bs) = (128 ≤ b) × (b < 256) × IsTagTail (c ∷ bs)

-- The identifier octets of a BER tag: one byte, or a byte that ends in five ones and a tail.
abbrev pub IsTagBytes : Bytes → Type 0
IsTagBytes [] = ⊥
IsTagBytes (b ∷ []) = (b < 256) × (b % 32 < 31)
IsTagBytes (b ∷ c ∷ bs) = (b < 256) × (b % 32 ≡ 31) × IsTagTail (c ∷ bs)

-- A number that Python writes as the identifier octets of a tag.
abbrev pub IsTag : ℕ → Type 0
IsTag tag = IsTagBytes (int2bytes tag 0)

tag_bytes_done :
    (rest : Bytes) (a b offset : ℕ)
    → b < 128
    → tag_bytes rest (a * 256 + b) offset ≡ ok (a * 256 + b, offset)
unfolding tag_bytes
tag_bytes_done [] a b offset h = ground (arith, bit_7 (a * 256 + b))
tag_bytes_done (c ∷ rest) a b offset h = ground (arith, bit_7 (a * 256 + b))

tag_bytes_step :
    (rest : Bytes) (a b c offset : ℕ)
    → 128 ≤ b
    → b < 256
    → c < 256
    → tag_bytes (c ∷ rest) (a * 256 + b) offset
      ≡ tag_bytes rest ((a * 256 + b) * 256 + c) (offset + 1)
unfolding tag_bytes
tag_bytes_step rest a b c offset h k l =
    ground (arith, bit_7 (a * 256 + b), or_byte (a * 256 + b) c l)

tail_byte : (c : ℕ) (bs : Bytes) → IsTagTail (c ∷ bs) → c < 256
tail_byte c [] h = omega arith
tail_byte c (d ∷ bs) h = h.1

tag_bytes_tail :
    (b : ℕ) (bs rest : Bytes) (a offset : ℕ)
    → IsTagTail (b ∷ bs)
    → tag_bytes (bs ++ rest) (a * 256 + b) offset
      ≡ ok (foldl append_digit (a * 256 + b) bs, offset + length bs)
tag_bytes_tail b [] rest a offset h =
    tag_bytes_done rest a b offset h ∙ ap (λ n. ok (a * 256 + b, n)) (omega arith)
tag_bytes_tail b (c ∷ bs) rest a offset h =
    tag_bytes_step (bs ++ rest) a b c offset h.0 h.1 (tail_byte c bs h.2)
    ∙ tag_bytes_tail c bs rest (a * 256 + b) (offset + 1) h.2
    ∙ ap (λ n. ok (foldl append_digit ((a * 256 + b) * 256 + c) bs, n)) (omega arith)

-- `read_tag` reads the identifier octets back, with the offset behind them.
read_tag_back :
    (tag_octets rest : Bytes)
    → IsTagBytes tag_octets
    → read_tag (tag_octets ++ rest) 0 ≡ ok (bytes2int tag_octets, length tag_octets)
unfolding read_tag bytes2int
read_tag_back [] rest h = absurd h
read_tag_back (b ∷ []) rest h = ground (arith, mask_31 b)
read_tag_back (b ∷ c ∷ bs) rest h =
    ground (arith, mask_31 b, or_byte b c (tail_byte c bs h.2), tag_bytes_tail c bs rest b 2 h.2)

or_top_bit : (k : ℕ) → k < 128 → bit_or 0x80 k ≡ 128 + k
or_top_bit k h = (==_iff _ _).0 (all_below_sound 128 (λ k. bit_or 0x80 k == 128 + k) k table h)
  where
    table : all_below 128 (λ k. bit_or 0x80 k == 128 + k) ≡ true
    table = unfold all_below in refl

-- Behind any bytes, the length bytes of `n` are read as the length `n`.
module _ (pre tail : Bytes) (tag n : ℕ) where
  abbrev LengthBack : Bytes → Type 0
  LengthBack lb =
      (ln : ℕ) × (get_elem? (pre ++ (lb ++ tail)) (length pre) ≡ some ln)
      × ((ln == 0x80) ≡ false)
      × (definite (pre ++ (lb ++ tail)) tag (length pre + 1) ln ≡ record {
        tag = tag;
        offset = length pre + length lb;
        ln = n;
        end = length pre + length lb + n;
      })

  short_back : n < 128 → LengthBack (n ∷ [])
  unfolding definite
  short_back h = (n, get_elem?_middle pre n tail, ground arith, ground arith)

  long_back :
      (ds : Bytes)
      → bytes2int ds ≡ n
      → 1 ≤ length ds
      → length ds < 128
      → LengthBack (bit_or 0x80 (length ds) ∷ ds)
  unfolding definite
  long_back ds e p q = (
    bit_or 0x80 (length ds),
    get_elem?_middle pre _ (ds ++ tail),
    ground (arith, or_top_bit (length ds)),
    ground (
      arith,
      or_top_bit (length ds),
      e,
      slice_behind pre ds tail (bit_or 0x80 (length ds)) (length pre + 1)
          (length pre + 1 + (bit_or 0x80 (length ds) - 0x80)),
    ),
  )

  length_back : n < 2 ^ 63 → LengthBack (length_bytes n)
  unfolding length_bytes
  length_back h = elim (Bool-cases (ltb n 0x80)) [
    | inl small ↦ rw small (short_back (ltb→lt n 0x80 small))
    | inr large ↦ rw large (
        long_back (int2bytes n 0) (bytes2int-int2bytes n 0) (length-int2bytes 7 n 0 (omega arith)).0
          (omega (arith, length-int2bytes 7 n 0 (omega arith))))
  ]

tlv_parse-definite :
    (fuel limit : ℕ) (data_ : Bytes) (tag next ln : ℕ)
    → read_tag data_ 0 ≡ ok (tag, next)
    → get_elem? data_ next ≡ some ln
    → (ln == 0x80) ≡ false
    → tlv_parse (suc fuel) (suc limit) data_ 0 ≡ ok (definite data_ tag (next + 1) ln)
unfolding tlv_parse
tlv_parse-definite fuel limit data_ tag next ln p q r = rw p (rw q (rw r))

parse_header-definite :
    (limit : ℕ) (data_ : Bytes) (tag next ln : ℕ)
    → read_tag data_ 0 ≡ ok (tag, next)
    → get_elem? data_ next ≡ some ln
    → (ln == 0x80) ≡ false
    → parse_header_within (suc limit) data_ ≡ ok (definite data_ tag (next + 1) ln)
unfolding parse_header_within
parse_header-definite limit data_ tag next ln p q r =
    ap (λ n. tlv_parse n (suc limit) data_ 0) (add-one (length data_))
    ∙ tlv_parse-definite (length data_) limit data_ tag next ln p q r

-- Any tag, any value that a Python byte string can be, and any bytes behind: the header is read
-- back, and it ends where the value ends. No call is nested, so that one call of room is enough.
module _ (tag : ℕ) (v : Bytes) where
  abbrev pub start : ℕ
  start = length (int2bytes tag 0) + length (length_bytes (length v))

  pub pack-append :
      (rest : Bytes)
      → pack tag v ++ rest ≡ int2bytes tag 0 ++ (length_bytes (length v) ++ (v ++ rest))
  unfolding pack
  pack-append rest =
      append_assoc (int2bytes tag 0) (length_bytes (length v) ++ v) rest
      ∙ ap (λ r. int2bytes tag 0 ++ r) (append_assoc (length_bytes (length v)) v rest)

  pub length-pack : length (pack tag v) ≡ start + length v
  unfolding pack
  length-pack = omega (
    arith,
    length-append (int2bytes tag 0) (length_bytes (length v) ++ v),
    length-append (length_bytes (length v)) v,
  )

  abbrev pub packed_header : Header
  packed_header = record { tag = tag; offset = start; ln = length v; end = start + length v }

  pub parse_header-pack :
      (limit : ℕ) (rest : Bytes)
      → IsTag tag
      → length v < 2 ^ 63
      → parse_header_within (suc limit) (pack tag v ++ rest) ≡ ok packed_header
  parse_header-pack limit rest valid sized =
      let tb : Bytes = int2bytes tag 0 in
      let lb : Bytes = length_bytes (length v) in
      let back : LengthBack tb (v ++ rest) tag (length v) lb =
        length_back tb (v ++ rest) tag (length v) sized in
      ap (parse_header_within (suc limit)) (pack-append rest)
      ∙ parse_header-definite limit (tb ++ (lb ++ (v ++ rest))) tag (length tb) back.0
          (read_tag_back tb (lb ++ (v ++ rest)) valid
            ∙ ap (λ n. ok (n, length tb)) (bytes2int-int2bytes tag 0))
          back.1 back.2
      ∙ ap ok back.3

  abbrev pub packed : Tlv
  packed = record { bytes = pack tag v; tag = tag; value_offset = start; value_ln = length v }

  pub init_within-pack :
      (limit : ℕ) → IsTag tag → length v < 2 ^ 63 → init_within (suc limit) (pack tag v) ≡ ok packed
  unfolding init_within
  init_within-pack limit valid sized =
      rw
        (ap (parse_header_within (suc limit)) (sym (append-nil (pack tag v)))
          ∙ parse_header-pack limit [] valid sized)
        (rw length-pack (rw ==_refl))

  -- `Tlv(tag, value)` has the tag that it was made from.
  pub init-pack : IsTag tag → length v < 2 ^ 63 → init (pack tag v) ≡ ok packed
  unfolding init
  init-pack = init_within-pack (length (pack tag v))

  pub value-packed : value packed ≡ v
  unfolding value
  value-packed =
      let tb : Bytes = int2bytes tag 0 in
      let lb : Bytes = length_bytes (length v) in
      ap (λ d. slice start (start + length v) d)
        (sym (append-nil (pack tag v)) ∙ pack-append [] ∙ sym (append_assoc tb lb (v ++ [])))
      ∙ slice_middle (tb ++ lb) v [] start (start + length v) (sym (length-append tb lb))
          (omega (arith, length-append tb lb))

  -- `Tlv.parse_from` on a packed TLV and any rest returns the TLV and the rest.
  pub parse_from-pack :
      (limit : ℕ) (rest : Bytes)
      → IsTag tag
      → length v < 2 ^ 63
      → parse_from_within (suc limit) (pack tag v ++ rest) ≡ ok (packed, rest)
  unfolding parse_from_within
  parse_from-pack limit rest valid sized = rw (parse_header-pack limit rest valid sized) (
      rw (take_to (pack tag v) rest (start + length v) (sym length-pack)) (
        rw (drop_from (pack tag v) rest (start + length v) (sym length-pack))
          (rw (init_within-pack limit valid sized))))
