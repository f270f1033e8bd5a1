-- ===== src/Core/Bytes/Packing.antt =====
-- `struct.pack` succeeds on numbers that fit.
use yubikey_manager.Prelude.{ℕ, ◌<◌, ◌≡◌, refl, [], ◌∷◌, ◌/◌, ◌%◌, All, lt→ltb}
use yubikey_manager.Core.Error.{ok}
use yubikey_manager.Core.Bytes.{Bytes, IsByte, pack_b, pack_be16, pack_le16, pack_all_b}

pub pack_b_byte : (x : ℕ) → x < 256 → pack_b x ≡ ok (x ∷ [])
unfolding pack_b
pack_b_byte x h = rw (lt→ltb x 256 h)

pub pack_all_b_bytes : (xs : Bytes) → All IsByte xs → pack_all_b xs ≡ ok xs
unfolding pack_all_b
pack_all_b_bytes [] h = refl
pack_all_b_bytes (x ∷ xs) h = rw (pack_b_byte x h.0) (rw (pack_all_b_bytes xs h.1))

pub pack_be16_pair : (x : ℕ) → x < 65536 → pack_be16 x ≡ ok (x / 256 ∷ x % 256 ∷ [])
unfolding pack_be16
pack_be16_pair x h = rw (lt→ltb x 65536 h)

pub pack_le16_pair : (x : ℕ) → x < 65536 → pack_le16 x ≡ ok (x % 256 ∷ x / 256 ∷ [])
unfolding pack_le16
pack_le16_pair x h = rw (lt→ltb x 65536 h)
