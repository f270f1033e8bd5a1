-- ===== src/Core/Bytes.antt =====
-- yubikit/core/__init__.py: `int2bytes` and `bytes2int`; indexing and slicing of `bytes`, and the
-- `struct.pack` formats that the program uses. A byte string is a list of numbers below 256.
pub mod RoundTrip
pub mod Slices
pub mod Packing
pub mod Equality
use yubikey_manager.Prelude.{
  ℕ, zero, suc, ◌+◌, ◌-◌, ◌*◌, ◌/◌, ◌%◌, ◌<◌, ◌^◌, Bool, true, false, Option, none, some, List, [],
  ◌∷◌, ◌++◌, foldl, reverse, bit_and, ltb, ◌==◌, if◌then◌else◌, length, take, drop, replicate,
  get_elem?,
}
use yubikey_manager.Core.Error.{Result, ok, err, index_error, struct_error, from_option, ◌>>=◌}

abbrev pub Bytes : Type 0
Bytes = List ℕ

abbrev pub IsByte : ℕ → Type 0
IsByte b = b < 256

-- The bytes that the loop appends, lowest first; the last `buf.append(value)` is the exit.
unfoldable pub int2bytes_loop : ℕ → ℕ → Bytes
int2bytes_loop zero value = value ∷ []
int2bytes_loop (suc fuel) value =
    let rest = int2bytes_loop fuel (value / 256) in
    if ltb 0xff value then bit_and value 0xff ∷ rest else value ∷ []

-- `xs.rjust(n, b)` and `xs.ljust(n, b)`
abbrev pub rjust : ℕ → ℕ → Bytes → Bytes
rjust n b xs = replicate (n - length xs) b ++ xs

abbrev pub ljust : ℕ → ℕ → Bytes → Bytes
ljust n b xs = xs ++ replicate (n - length xs) b

-- `value` rounds are enough: each divides by 256.
unfoldable pub int2bytes : ℕ → ℕ → Bytes
int2bytes value min_len = rjust min_len 0 (reverse (int2bytes_loop value value))

-- `int.from_bytes(data, "big")`
abbrev pub append_digit : ℕ → ℕ → ℕ
append_digit acc b = acc * 256 + b

unfoldable pub bytes2int : Bytes → ℕ
bytes2int = foldl append_digit 0

-- `data[i]`, for `i` at least 0
abbrev pub byte_at : Bytes → ℕ → Result ℕ
byte_at xs i = from_option index_error (get_elem? xs i)

-- `data[from:to]`
abbrev pub slice : ℕ → ℕ → Bytes → Bytes
slice from to xs = take (to - from) (drop from xs)

-- `a == b`, `constant_time.bytes_eq` and `hmac.compare_digest`
unfoldable pub bytes_eq : Bytes → Bytes → Bool
bytes_eq [] [] = true
bytes_eq [] (y ∷ ys) = false
bytes_eq (x ∷ xs) [] = false
bytes_eq (x ∷ xs) (y ∷ ys) = if x == y then bytes_eq xs ys else false

-- `struct.pack(">B", x)`, `struct.pack(">H", x)` and `struct.pack("<H", x)`
unfoldable pub pack_b : ℕ → Result Bytes
pack_b x = if ltb x 256 then ok (x ∷ []) else err struct_error

unfoldable pub pack_be16 : ℕ → Result Bytes
pack_be16 x = if ltb x 65536 then ok (x / 256 ∷ x % 256 ∷ []) else err struct_error

unfoldable pub pack_le16 : ℕ → Result Bytes
pack_le16 x = if ltb x 65536 then ok (x % 256 ∷ x / 256 ∷ []) else err struct_error

-- `struct.pack(">BB...", ...)`
unfoldable pub pack_all_b : Bytes → Result Bytes
pack_all_b [] = ok []
pack_all_b (x ∷ xs) = do b ← pack_b x; bs ← pack_all_b xs; ok (b ++ bs)

-- `struct.pack(">I", x)`, and `struct.pack(">q", x)` for an `x` from 0 on
unfoldable pub pack_be32 : ℕ → Result Bytes
pack_be32 x = if ltb x (2 ^ 32) then ok (int2bytes x 4) else err struct_error

unfoldable pub pack_be64 : ℕ → Result Bytes
pack_be64 x = if ltb x (2 ^ 63) then ok (int2bytes x 8) else err struct_error
