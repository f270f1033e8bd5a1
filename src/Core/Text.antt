-- ===== src/Core/Text.antt =====
-- Python's `str`: a list of code points; `encode()` and `decode()`, and decimal numbers.
pub mod Utf8
pub mod Decimal
use yubikey_manager.Prelude.{
  ℕ, zero, suc, ◌+◌, ◌-◌, ◌*◌, ◌/◌, ◌%◌, Bool, true, false, ◌&&◌, not, Option, none, some, List, [],
  ◌∷◌, ◌++◌, ltb, leb, ◌==◌, if◌then◌else◌,
}
use yubikey_manager.Core.Error.{Result, ok, err, encode_error, decode_error, ◌>>=◌}
use yubikey_manager.Core.Bytes.{Bytes}

abbrev pub Text : Type 0
Text = List ℕ

abbrev pub within : ℕ → ℕ → ℕ → Bool
within low b high = leb low b && leb b high

-- One code point; a surrogate has no encoding.
unfoldable pub encode_char : ℕ → Result Bytes
encode_char c =
    if ltb c 0x80
    then ok (c ∷ [])
    else if ltb c 0x800
    then ok ((0xc0 + c / 64) ∷ (0x80 + c % 64) ∷ [])
    else if within 0xd800 c 0xdfff
    then err encode_error
    else if ltb c 0x10000
    then ok ((0xe0 + c / 4096) ∷ (0x80 + c / 64 % 64) ∷ (0x80 + c % 64) ∷ [])
    else ok
        ((0xf0 + c / 262144) ∷ (0x80 + c / 4096 % 64) ∷ (0x80 + c / 64 % 64) ∷ (0x80 + c % 64) ∷ [])

-- `s.encode()`
unfoldable pub encode : Text → Result Bytes
encode [] = ok []
encode (c ∷ cs) = do b ← encode_char c; bs ← encode cs; ok (b ++ bs)

-- The bytes that are still to follow, the bounds of the first of them, and the bits so far.
pub record Pending : Type 0 where
  pub count : ℕ
  pub low : ℕ
  pub high : ℕ
  pub bits : ℕ

abbrev pub pending : ℕ → ℕ → ℕ → ℕ → Pending
pending count low high bits = record { count = count; low = low; high = high; bits = bits }

abbrev pub start : Pending
start = pending 0 0 0 0

unfoldable pub feed : Pending → ℕ → Option Pending
feed p b =
    if not (p.count == 0)
    then if within p.low b p.high
      then some (pending (p.count - 1) 0x80 0xbf (p.bits * 64 + (b - 0x80)))
      else none
    else if ltb b 0x80
    then some (pending 0 0 0 b)
    else if within 0xc2 b 0xdf
    then some (pending 1 0x80 0xbf (b - 0xc0))
    else if b == 0xe0
    then some (pending 2 0xa0 0xbf 0)
    else if b == 0xed
    then some (pending 2 0x80 0x9f 0xd)
    else if within 0xe1 b 0xef
    then some (pending 2 0x80 0xbf (b - 0xe0))
    else if b == 0xf0
    then some (pending 3 0x90 0xbf 0)
    else if within 0xf1 b 0xf3
    then some (pending 3 0x80 0xbf (b - 0xf0))
    else if b == 0xf4
    then some (pending 3 0x80 0x8f 4)
    else none

-- `b.decode()`, from some point on
unfoldable pub decode_from : Pending → Bytes → Result Text
decode_from p [] = if p.count == 0 then ok [] else err decode_error
decode_from p (b ∷ bs) = elim (feed p b) [
  | none ↦ err decode_error
  | some q ↦
      if q.count == 0
      then (do rest ← decode_from start bs; ok (q.bits ∷ rest))
      else decode_from q bs
]

unfoldable pub decode : Bytes → Result Text
decode bs = decode_from start bs

-- `"%d" % n`: the digits, on fuel; each takes a factor of ten away.
unfoldable pub digits_loop : ℕ → ℕ → Text
digits_loop zero n = (48 + n) ∷ []
digits_loop (suc fuel) n =
    let high = digits_loop fuel (n / 10) in
    if ltb n 10 then (48 + n) ∷ [] else high ++ ((48 + n % 10) ∷ [])

unfoldable pub show : ℕ → Text
show n = digits_loop n n
