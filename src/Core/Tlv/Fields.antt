-- ===== src/Core/Tlv/Fields.antt =====
-- A sequence of packed TLVs is read back by `Tlv.parse_list`, `Tlv.parse_dict` and `Tlv.unpack`.
use yubikey_manager.Prelude.{
  ℕ, zero, suc, ◌^◌, ◌%◌, ◌≤◌, ◌<◌, ◌≡◌, ◌∙◌, ap, refl, List, [], ◌∷◌, ◌++◌, arith, length,
  length-append, All, ◌==◌, if◌then◌else◌,
}
use yubikey_manager.Core.Error.{ok, err, value_error, ◌>>=◌}
use yubikey_manager.Core.Bytes.{Bytes, int2bytes, int2bytes_loop}
use yubikey_manager.Core.Dict.{update}
use yubikey_manager.Core.Tlv.{
  Tlv, pack, parse_from_within, parse_list_loop, parse_list_within, parse_list, parse_dict, entries,
  unpack, new, encoded,
}
use yubikey_manager.Core.Tlv.Encoding.{
  IsTag, packed, parse_from-pack, init_within-pack, init-pack, value-packed,
}
use yubikey_manager.Core.Tlv.Sequence.{init_total, IsWhole}

-- One TLV after the other.
unfoldable pub pack_all : List (ℕ × Bytes) → Bytes
pack_all [] = []
pack_all ((tag, v) ∷ fs) = pack tag v ++ pack_all fs

-- A field that can be packed: a BER tag, and a value of a size that Python has.
abbrev pub IsField : ℕ × Bytes → Type 0
IsField (tag, v) = IsTag tag × (length v < 2 ^ 63)

abbrev pub packed_all : List (ℕ × Bytes) → List Tlv
packed_all [] = []
packed_all ((tag, v) ∷ fs) = packed tag v ∷ packed_all fs

list_step :
    (limit fuel : ℕ) (src : Bytes) (t : Tlv) (rest : Bytes)
    → 1 ≤ length src
    → parse_from_within limit src ≡ ok (t, rest)
    → parse_list_loop limit (suc fuel) src
      ≡ (do more ← parse_list_loop limit fuel rest; ok (t ∷ more))
unfolding parse_list_loop
list_step limit fuel [] t rest h p = absurd (omega arith)
list_step limit fuel (b ∷ bs) t rest h p = rw p

pack_size : (tag : ℕ) (v : Bytes) → IsField (tag, v) → 2 ≤ length (pack tag v)
pack_size tag v h =
    let whole : IsWhole 1 (pack tag v) (ok (packed tag v)) =
      rw (init_within-pack tag v 0 h.0 h.1) at (init_total 1 (pack tag v)) in
    whole.1

loop-pack_all :
    (limit : ℕ) (fs : List (ℕ × Bytes)) (fuel : ℕ)
    → All IsField fs
    → length (pack_all fs) ≤ fuel
    → parse_list_loop (suc limit) fuel (pack_all fs) ≡ ok (packed_all fs)
unfolding pack_all
loop-pack_all limit [] fuel h p = unfold parse_list_loop in refl
loop-pack_all limit ((tag, v) ∷ fs) zero h p =
    absurd (omega (arith, pack_size tag v h.0, length-append (pack tag v) (pack_all fs)))
loop-pack_all limit ((tag, v) ∷ fs) (suc fuel) h p =
    list_step (suc limit) fuel (pack tag v ++ pack_all fs) (packed tag v) (pack_all fs)
      (omega (arith, pack_size tag v h.0, length-append (pack tag v) (pack_all fs)))
      (parse_from-pack tag v limit (pack_all fs) h.0.0 h.0.1)
    ∙ rw (
        loop-pack_all limit fs fuel h.1
          (omega (arith, pack_size tag v h.0, length-append (pack tag v) (pack_all fs))))

-- `Tlv.parse_list` reads back every sequence of TLVs that were packed, in their order. Each tag
-- is a BER tag, and each value is shorter than 2 ^ 63.
pub parse_list-pack_all :
    (fs : List (ℕ × Bytes)) → All IsField fs → parse_list (pack_all fs) ≡ ok (packed_all fs)
unfolding parse_list parse_list_within
parse_list-pack_all fs h =
    loop-pack_all (length (pack_all fs)) fs (length (pack_all fs)) h (omega arith)

entries-packed_all : (fs : List (ℕ × Bytes)) → entries (packed_all fs) ≡ fs
entries-packed_all [] = refl
entries-packed_all ((tag, v) ∷ fs) =
    ap (λ w. (tag, w) ∷ entries (packed_all fs)) (value-packed tag v)
    ∙ ap (λ r. (tag, v) ∷ r) (entries-packed_all fs)

-- `Tlv.parse_dict` gives the dictionary that the fields make, put in from the first to the last.
pub parse_dict-pack_all :
    (fs : List (ℕ × Bytes)) → All IsField fs → parse_dict (pack_all fs) ≡ ok (update [] fs)
unfolding parse_dict
parse_dict-pack_all fs h = rw (parse_list-pack_all fs h) (rw (entries-packed_all fs))

-- `Tlv.unpack` returns the value under its tag, and raises `ValueError` under any other. The tag
-- is a BER tag, and the value is shorter than 2 ^ 63.
pub unpack-pack :
    (wanted tag : ℕ) (v : Bytes)
    → IsTag tag
    → length v < 2 ^ 63
    → unpack wanted (pack tag v) ≡ (if tag == wanted then ok v else err value_error)
unfolding unpack
unpack-pack wanted tag v valid sized = rw (init-pack tag v valid sized) (rw (value-packed tag v))

int2bytes_small : (n : ℕ) → n < 256 → int2bytes n 0 ≡ n ∷ []
unfolding int2bytes int2bytes_loop
int2bytes_small zero h = refl
int2bytes_small (suc n) h = ground arith

-- A tag of one byte that does not announce more.
pub small-IsTag : (tag : ℕ) → (tag < 256) × (tag % 32 < 31) → IsTag tag
small-IsTag tag h = rw (int2bytes_small tag h.0) h

-- What `Tlv(tag, value)` makes of a BER tag and a value of a size that Python has.
pub encoded-pack :
    (tag : ℕ) (v : Bytes) → IsTag tag → length v < 2 ^ 63 → encoded tag v ≡ ok (pack tag v)
unfolding encoded new
encoded-pack tag v valid sized = rw (init-pack tag v valid sized)
