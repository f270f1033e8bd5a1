-- ===== src/Core/Tests.antt =====
-- The theorems on yubikit/core/__init__.py at concrete inputs.
use yubikey_manager.Prelude.{ℕ, ◌≡◌, refl, arith, List, [], ◌∷◌, All, if◌then◌else◌, ◌==◌}
use yubikey_manager.Core.Error.{ok, err, value_error, recursion_error}
use yubikey_manager.Core.Bytes.{Bytes, int2bytes, int2bytes_loop, bytes2int}
use yubikey_manager.Core.Bytes.RoundTrip.{int2bytes-bytes2int}
use yubikey_manager.Core.Tlv.{
  parse_header_within, parse_list_within, parse_list_loop, parse_from_within, tlv_parse, tlv_skip,
  read_tag, in_content, parse_list, unpack, pack,
}
use yubikey_manager.Core.Tlv.Bounds.{IsParsed, parse_header_total}
use yubikey_manager.Core.Tlv.Sequence.{IsCover, parse_list_total}
use yubikey_manager.Core.Tlv.Fields.{
  IsField, pack_all, packed_all, parse_list-pack_all, unpack-pack,
}
use yubikey_manager.Core.Tlv.Encoding.{IsTag}

abbrev fields : List (ℕ × Bytes)
fields = (0x5f2d, 1 ∷ 2 ∷ []) ∷ (0x71, []) ∷ []

-- An indefinite length with one element in it, and then two bytes that are no TLV.
abbrev nested : Bytes
nested = 0x30 ∷ 0x80 ∷ 0x04 ∷ 0x01 ∷ 0xff ∷ 0 ∷ 0 ∷ 0x04 ∷ 0x05 ∷ []

fields-IsField : All IsField fields
unfolding int2bytes int2bytes_loop
fields-IsField = (
  ((omega arith, refl, omega arith), omega arith),
  (((omega arith, omega arith), omega arith), tt),
)

parse_list-pack_all_example : parse_list (pack_all fields) ≡ ok (packed_all fields)
parse_list-pack_all_example = parse_list-pack_all fields fields-IsField

-- Two indefinite lengths, one in the other, with room for one call.
too_deep : parse_list_within 1 (0x30 ∷ 0x80 ∷ 0x30 ∷ 0x80 ∷ []) ≡ err recursion_error
unfolding parse_list_within parse_list_loop parse_from_within parse_header_within tlv_parse tlv_skip
    read_tag in_content
too_deep = refl

parse_list_total_example : IsCover 2 nested (parse_list_within 2 nested)
parse_list_total_example = parse_list_total 2 nested

parse_header_total_example : IsParsed 9 2 0 (parse_header_within 2 nested)
parse_header_total_example = parse_header_total 2 nested

auth_key-IsTag : IsTag 0x71
unfolding int2bytes int2bytes_loop
auth_key-IsTag = (omega arith, omega arith)

unpack-pack_example :
    unpack 0x72 (pack 0x71 (1 ∷ [])) ≡ (if 0x71 == 0x72 then ok (1 ∷ []) else err value_error)
unpack-pack_example = unpack-pack 0x72 0x71 (1 ∷ []) auth_key-IsTag (omega arith)

int2bytes-bytes2int_example : int2bytes (bytes2int (5 ∷ 0 ∷ 200 ∷ [])) 0 ≡ 5 ∷ 0 ∷ 200 ∷ []
int2bytes-bytes2int_example = int2bytes-bytes2int 5 (0 ∷ 200 ∷ []) (omega arith) (omega arith)
