-- ===== src/SmartCard/Apdu.antt =====
-- yubikit/core/smartcard/__init__.py: the two APDU formats.
pub mod Parsing
use yubikey_manager.Prelude.{
  ℕ, zero, suc, ◌+◌, Bool, List, [], ◌∷◌, ◌++◌, bit_or, ltb, ◌==◌, if◌then◌else◌, length,
}
use yubikey_manager.Core.Error.{Result, ok, err, struct_error, not_supported, ◌>>=◌}
use yubikey_manager.Core.Bytes.{Bytes, pack_b, pack_be16, pack_all_b}

-- `if le: buf += struct.pack(format, le)`
abbrev pub add_le : (ℕ → Result Bytes) → ℕ → Bytes → Result Bytes
add_le pack le buf = if le == 0 then ok buf else (do l ← pack le; ok (buf ++ l))

-- `ShortApduProcessor.format_apdu`
unfoldable pub format_short : ℕ → ℕ → ℕ → ℕ → Bytes → ℕ → Result Bytes
format_short cla ins p1 p2 body le = do
  head ← pack_all_b (cla ∷ ins ∷ p1 ∷ p2 ∷ length body ∷ [])
  add_le pack_b le (head ++ body)

-- `ExtendedApduProcessor.format_apdu`
unfoldable pub format_extended : ℕ → ℕ → ℕ → ℕ → ℕ → Bytes → ℕ → Result Bytes
format_extended max_apdu_size cla ins p1 p2 body le = do
  head ← pack_all_b (cla ∷ ins ∷ p1 ∷ p2 ∷ 0 ∷ [])
  size ← pack_be16 (length body)
  buf ← add_le pack_be16 le (head ++ (size ++ body))
  if ltb max_apdu_size (length buf) then err not_supported else ok buf

-- The format that a processor was made with.
pub data Format : Type 0 where
  short : Format
  extended : ℕ → Format

unfoldable pub format_apdu : Format → ℕ → ℕ → ℕ → ℕ → Bytes → ℕ → Result Bytes
format_apdu short = format_short
format_apdu (extended max_apdu_size) = format_extended max_apdu_size
