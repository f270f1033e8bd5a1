-- ===== src/Core/Tlv/Bounds.antt =====
-- `_tlv_parse` on any input.
use yubikey_manager.Prelude.{
  ℕ, zero, suc, ◌+◌, ◌*◌, ◌≤◌, ◌<◌, ◌≡◌, ◌⊎◌, inl, inr, refl, [], ◌∷◌, arith, Bool, true, false,
  length, drop, length-drop, get_elem?_bound, get_elem?, Option-cases,
}
use yubikey_manager.Core.Error.{
  Result, Result-cases, ok, err, value_error, index_error, recursion_error,
}
use yubikey_manager.Core.Bytes.{Bytes, byte_at}
use yubikey_manager.Core.Tlv.{
  Header, tag_bytes, add_tag_byte, read_tag, in_content, definite, tlv_parse, tlv_skip,
  parse_header_within,
}

abbrev TagRead : Bytes → ℕ → Result (ℕ × ℕ) → Type 0
TagRead data_ offset (ok (tag, next)) = (offset < next) × (next ≤ length data_)
TagRead data_ offset (err e) = e ≡ index_error

abbrev TagMore : ℕ → ℕ → Result (ℕ × ℕ) → Type 0
TagMore n offset (ok (tag, next)) = (offset ≤ next) × (next ≤ offset + n)
TagMore n offset (err e) = e ≡ index_error

tag_bytes_bound :
    (rest : Bytes) (tag offset : ℕ) → TagMore (length rest) offset (tag_bytes rest tag offset)
unfolding tag_bytes
tag_bytes_bound [] tag offset = ground arith
tag_bytes_bound (b ∷ rest) tag offset =
    ground (arith, tag_bytes_bound rest (add_tag_byte tag b) (offset + 1))

byte_at_bound : (data_ : Bytes) (i b : ℕ) → byte_at data_ i ≡ ok b → i < length data_
byte_at_bound data_ i b h = ground (arith, get_elem?_bound data_ i b)

read_tag_bound : (data_ : Bytes) (offset : ℕ) → TagRead data_ offset (read_tag data_ offset)
unfolding read_tag
read_tag_bound data_ offset = elim (Option-cases (get_elem? data_ offset)) [
  | inl e ↦ rw e refl
  | inr (t, e) ↦ elim (Option-cases (get_elem? data_ (offset + 1))) [
    | inl f ↦ rw (e, f) (ground (arith, get_elem?_bound data_ offset t e))
    | inr (b, f) ↦
        rw (e, f)
          (ground (
            arith,
            get_elem?_bound data_ offset t e,
            get_elem?_bound data_ (offset + 1) b f,
            length-drop (offset + 2) data_,
            tag_bytes_bound (drop (offset + 2) data_) (add_tag_byte t b) (offset + 2),
          ))
  ]
]

definite_bound :
    (data_ : Bytes) (tag offset ln : ℕ)
    → (offset ≤ (definite data_ tag offset ln).offset)
      × ((definite data_ tag offset ln).end
          ≡ (definite data_ tag offset ln).offset + (definite data_ tag offset ln).ln)
unfolding definite
definite_bound data_ tag offset ln = ground arith

-- What a parse from `offset` can give, in `n` bytes and with room for `limit` nested calls: a
-- `RecursionError` takes two bytes for each of them.
abbrev pub IsParsed : ℕ → ℕ → ℕ → Result Header → Type 0
IsParsed n limit offset (ok h) = (offset + 2 ≤ h.offset) × (h.offset + h.ln ≤ h.end)
IsParsed n limit offset (err e) =
    (e ≡ value_error) ⊎ ((e ≡ recursion_error) × (offset + 2 * limit ≤ n))

abbrev Skipped : ℕ → ℕ → ℕ → Result ℕ → Type 0
Skipped n limit end (ok e) = (end ≤ e)
Skipped n limit end (err e) =
    (e ≡ value_error) ⊎ (e ≡ index_error) ⊎ ((e ≡ recursion_error) × (end + 2 * limit ≤ n))

abbrev ContentRead : ℕ → ℕ → Result Bool → Type 0
ContentRead n end (ok b) = end < n
ContentRead n end (err e) = e ≡ index_error

in_content_bound : (data_ : Bytes) (end : ℕ) → ContentRead (length data_) end (in_content data_ end)
unfolding in_content
in_content_bound data_ end = elim (Option-cases (get_elem? data_ end)) [
  | inl e ↦ rw e refl
  | inr (a, e) ↦ rw e (ground (arith, get_elem?_bound data_ end a e))
]

mutual
  unfolding tlv_parse tlv_skip

  parse_bound :
      (fuel limit : ℕ) (data_ : Bytes) (offset : ℕ)
      → length data_ + 1 ≤ fuel + offset
      → 1 ≤ fuel
      → offset ≤ length data_
      → IsParsed (length data_) limit offset (tlv_parse fuel limit data_ offset)
  parse_bound zero limit data_ offset h p q = absurd (omega arith)
  parse_bound (suc fuel) zero data_ offset h p q = inr (refl, omega arith)
  parse_bound (suc fuel) (suc limit) data_ offset h p q =
      elim (Result-cases (read_tag data_ offset)) [
        | inr (e, r) ↦ rw r (ground (arith, read_tag_bound data_ offset))
        | inl ((tag, next), r) ↦ rw r (elim (Option-cases (get_elem? data_ next)) [
          | inl g ↦ rw g (inl refl)
          | inr (ln, g) ↦ rw g (
              ground (
                arith,
                read_tag_bound data_ offset,
                get_elem?_bound data_ next ln g,
                definite_bound data_ tag (next + 1) ln,
                skip_bound fuel limit data_ (next + 1),
              ))
        ])
      ]

  skip_bound :
      (fuel limit : ℕ) (data_ : Bytes) (end : ℕ)
      → length data_ + 2 ≤ fuel + end
      → 1 ≤ fuel
      → Skipped (length data_) limit end (tlv_skip fuel limit data_ end)
  skip_bound zero limit data_ end h p = absurd (omega arith)
  skip_bound (suc fuel) limit data_ end h p = elim (Result-cases (in_content data_ end)) [
    | inr (e, r) ↦ rw r (ground (arith, in_content_bound data_ end))
    | inl (false, r) ↦ rw r (omega arith)
    | inl (true, r) ↦ rw r (elim (Result-cases (tlv_parse fuel limit data_ end)) [
      | inl (h', q) ↦ rw q (
          ground (
            arith,
            in_content_bound data_ end,
            parse_bound fuel limit data_ end,
            skip_bound fuel limit data_ h'.end,
          ))
      | inr (e, q) ↦
          rw q (ground (arith, in_content_bound data_ end, parse_bound fuel limit data_ end))
    ])
  ]

-- `_tlv_parse` on any bytes ends within its fuel, with a header that lies behind the tag and the
-- length and whose value ends by its end, or with `ValueError`, or, where the stack has room for
-- `limit` nested calls only, with `RecursionError`; that takes an input of two bytes for each of
-- these calls.
pub parse_header_total :
    (limit : ℕ) (data_ : Bytes) → IsParsed (length data_) limit 0 (parse_header_within limit data_)
unfolding parse_header_within
parse_header_total limit data_ =
    parse_bound (length data_ + 1) limit data_ 0 (omega arith) (omega arith) (omega arith)
