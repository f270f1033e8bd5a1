-- ===== src/Otp/Modhex.antt =====
-- yubikit/core/otp.py: `modhex_encode` and `modhex_decode`. A string is the list of its code points.
pub mod RoundTrip
use yubikey_manager.Prelude.{
  ℕ, zero, suc, ◌+◌, ◌*◌, ◌/◌, ◌%◌, Bool, Option, none, some, List, [], ◌∷◌, ◌++◌, bit_and, bit_or,
  ◌==◌, if◌then◌else◌, length,
}
use yubikey_manager.Core.Error.{Result, ok, err, value_error, index_error, from_option, ◌>>=◌}
use yubikey_manager.Core.Bytes.{Bytes, byte_at}

abbrev pub alphabet : List ℕ
alphabet =
    b'c' ∷ b'b' ∷ b'd' ∷ b'e' ∷ b'f' ∷ b'g' ∷ b'h' ∷ b'i' ∷ b'j' ∷ b'k' ∷ b'l' ∷ b'n' ∷ b'r' ∷ b't'
    ∷ b'u' ∷ b'v' ∷ []

-- `xs.index(c)`: the first place of `c`.
unfoldable pub index_from : ℕ → List ℕ → ℕ → Result ℕ
index_from i [] c = err value_error
index_from i (x ∷ xs) c = if x == c then ok i else index_from (i + 1) xs c

unfoldable pub index : ℕ → Result ℕ
unfolding index_from
index c = index_from 0 alphabet c

unfoldable pub modhex_encode : Bytes → Result (List ℕ)
modhex_encode [] = ok []
modhex_encode (b ∷ bs) = do
  high ← byte_at alphabet (b / 16)
  low ← byte_at alphabet (bit_and b 0xf)
  more ← modhex_encode bs
  ok (high ∷ low ∷ more)

-- `index(a) << 4 | index(b)`
unfoldable pub decode_pair : ℕ → ℕ → Result ℕ
unfolding index
decode_pair a b = do high ← index a; low ← index b; ok (bit_or (high * 16) low)

-- The generator over the pairs; a last single character is not reached.
unfoldable pub decode_pairs : List ℕ → Result Bytes
unfolding decode_pair
decode_pairs [] = ok []
decode_pairs (a ∷ []) = ok []
decode_pairs (a ∷ b ∷ s) = do byte ← decode_pair a b; more ← decode_pairs s; ok (byte ∷ more)

unfoldable pub modhex_decode : List ℕ → Result Bytes
unfolding decode_pairs
modhex_decode string = if length string % 2 == 0 then decode_pairs string else err value_error
