-- ===== src/Core/Tlv.antt =====
-- yubikit/core/__init__.py: `_tlv_parse` and the class `Tlv`.
pub mod Encoding
pub mod Bounds
pub mod Limit
pub mod Sequence
pub mod Fields
use yubikey_manager.Prelude.{
  ℕ, zero, suc, ◌+◌, ◌-◌, ◌*◌, Bool, true, false, List, [], ◌∷◌, ◌++◌, bit_and, bit_or, not, ltb,
  ◌==◌, if◌then◌else◌, length, take, drop,
}
use yubikey_manager.Core.Error.{
  Result, ok, err, value_error, index_error, recursion_error, out_of_fuel, catch_index, require,
  ◌>>=◌, ◌>>◌,
}
use yubikey_manager.Core.Bytes.{Bytes, byte_at, slice, bytes2int, int2bytes}
use yubikey_manager.Core.Dict.{Dict, update}

-- `tag << 8 | b`
abbrev pub add_tag_byte : ℕ → ℕ → ℕ
add_tag_byte tag b = bit_or (tag * 256) b

-- `while tag & 0x80 == 0x80`; the list is `data[offset:]`.
unfoldable pub tag_bytes : Bytes → ℕ → ℕ → Result (ℕ × ℕ)
tag_bytes [] tag offset = if bit_and tag 0x80 == 0x80 then err index_error else ok (tag, offset)
tag_bytes (b ∷ rest) tag offset =
    let more = tag_bytes rest (add_tag_byte tag b) (offset + 1) in
    if bit_and tag 0x80 == 0x80 then more else ok (tag, offset)

-- The tag, in the short or the long form, and the offset behind it.
unfoldable pub read_tag : Bytes → ℕ → Result (ℕ × ℕ)
unfolding tag_bytes
read_tag data_ offset = do
  tag ← byte_at data_ offset
  if bit_and tag 0x1f == 0x1f
      then (do
        b ← byte_at data_ (offset + 1)
        tag_bytes (drop (offset + 2) data_) (add_tag_byte tag b) (offset + 2))
      else ok (tag, offset + 1)

-- `tag, offset, ln, end`
pub record Header : Type 0 where
  pub tag : ℕ
  pub offset : ℕ
  pub ln : ℕ
  pub end : ℕ

-- A definite length, with the offset behind its first byte.
unfoldable pub definite : Bytes → ℕ → ℕ → ℕ → Header
definite data_ tag offset ln =
    if ltb 0x80 ln
    then (let n_bytes : ℕ = ln - 0x80 in
        let long_ln : ℕ = bytes2int (slice offset (offset + n_bytes) data_) in
        record {
          tag = tag;
          offset = offset + n_bytes;
          ln = long_ln;
          end = offset + n_bytes + long_ln;
        })
    else record { tag = tag; offset = offset; ln = ln; end = offset + ln }

-- `data[end] or data[end + 1]`
unfoldable pub in_content : Bytes → ℕ → Result Bool
in_content data_ end = do
  a ← byte_at data_ end
  if a == 0 then (do b ← byte_at data_ (end + 1); ok (not (b == 0))) else ok true

-- `_tlv_parse`, and the loop that skips the content of an indefinite length. Both recur on fuel;
-- `Bounds` shows that `length data + 1` is enough. The limit is the number of nested calls of
-- `_tlv_parse` that the interpreter's stack still has room for; `except IndexError` does not catch
-- the `RecursionError` of one more.
unfoldable mutual
  pub tlv_parse : ℕ → ℕ → Bytes → ℕ → Result Header
  tlv_parse zero limit data_ offset = err out_of_fuel
  tlv_parse (suc fuel) zero data_ offset = err recursion_error
  tlv_parse (suc fuel) (suc limit) data_ offset = catch_index (do
    (tag, after_tag) ← read_tag data_ offset
    ln ← byte_at data_ after_tag
    let start = after_tag + 1
    if ln == 0x80
        then (do
          end ← tlv_skip fuel limit data_ start
          ok (record { tag = tag; offset = start; ln = end - start; end = end + 2 }))
        else ok (definite data_ tag start ln))

  pub tlv_skip : ℕ → ℕ → Bytes → ℕ → Result ℕ
  tlv_skip zero limit data_ end = err out_of_fuel
  tlv_skip (suc fuel) limit data_ end = do
    more ← in_content data_ end
    if more
        then (do h ← tlv_parse fuel limit data_ end; tlv_skip fuel limit data_ h.end)
        else ok end

-- A `Tlv` is its bytes, with what `__init__` found in them.
pub record Tlv : Type 0 where
  pub bytes : Bytes
  pub tag : ℕ
  pub value_offset : ℕ
  pub value_ln : ℕ

-- the property `value`
unfoldable pub value : Tlv → Bytes
value t = slice t.value_offset (t.value_offset + t.value_ln) t.bytes

-- The length bytes that `Tlv.__new__` writes.
unfoldable pub length_bytes : ℕ → Bytes
length_bytes n =
    if ltb n 0x80
    then n ∷ []
    else (let ln_bytes = int2bytes n 0 in bit_or 0x80 (length ln_bytes) ∷ ln_bytes)

-- The parser with a limit of nested calls
module _ (limit : ℕ) where
  -- `_tlv_parse(data)`
  unfoldable pub parse_header_within : Bytes → Result Header
  parse_header_within data_ = tlv_parse (length data_ + 1) limit data_ 0

  -- `Tlv.__init__`
  unfoldable pub init_within : Bytes → Result Tlv
  init_within data_ = do
    h ← parse_header_within data_
    if length data_ == h.end
        then ok (record { bytes = data_; tag = h.tag; value_offset = h.offset; value_ln = h.ln })
        else err value_error

  -- `Tlv.parse_from`
  unfoldable pub parse_from_within : Bytes → Result (Tlv × Bytes)
  parse_from_within data_ = do
    h ← parse_header_within data_
    t ← init_within (take h.end data_)
    ok (t, drop h.end data_)

  -- `Tlv.parse_list`: the loop, on fuel; each round takes two bytes at least.
  unfoldable pub parse_list_loop : ℕ → Bytes → Result (List Tlv)
  parse_list_loop fuel [] = ok []
  parse_list_loop zero (b ∷ bs) = err out_of_fuel
  parse_list_loop (suc fuel) (b ∷ bs) = do
    (t, rest) ← parse_from_within (b ∷ bs)
    more ← parse_list_loop fuel rest
    ok (t ∷ more)

  unfoldable pub parse_list_within : Bytes → Result (List Tlv)
  parse_list_within data_ = parse_list_loop (length data_) data_

-- `Tlv(data)` and `Tlv.parse_list(data)` with a limit that the input is too short to reach
unfoldable pub init : Bytes → Result Tlv
init data_ = init_within (suc (length data_)) data_

unfoldable pub parse_list : Bytes → Result (List Tlv)
parse_list data_ = parse_list_within (suc (length data_)) data_

-- `Tlv.__new__` from a tag and a value: the bytes. `None` for the value is the empty string.
unfoldable pub pack : ℕ → Bytes → Bytes
pack tag v = int2bytes tag 0 ++ (length_bytes (length v) ++ v)

-- `Tlv(tag, value)`: what was packed is parsed.
unfoldable pub new : ℕ → Bytes → Result Tlv
new tag v = init (pack tag v)

-- The bytes of `Tlv(tag, value)`
unfoldable pub encoded : ℕ → Bytes → Result Bytes
encoded tag v = do t ← new tag v; ok t.bytes

abbrev pub entries : List Tlv → Dict Bytes
entries [] = []
entries (t ∷ ts) = (t.tag, value t) ∷ entries ts

-- `Tlv.parse_dict`: of two entries with one tag the later counts.
unfoldable pub parse_dict : Bytes → Result (Dict Bytes)
parse_dict data_ = do ts ← parse_list data_; ok (update [] (entries ts))

-- `Tlv.unpack`
unfoldable pub unpack : ℕ → Bytes → Result Bytes
unpack tag data_ = do t ← init data_; if t.tag == tag then ok (value t) else err value_error

-- `Tlv.unpack(tag, Tlv.unpack(outer, data))`
unfoldable pub unpack_inner : ℕ → ℕ → Bytes → Result Bytes
unpack_inner outer tag data_ = do v ← unpack outer data_; unpack tag v
