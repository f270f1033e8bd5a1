-- ===== src/Core/Bytes/RoundTrip.antt =====
-- `int2bytes` against `bytes2int`: the value, the bytes, the length, and the canonical form.
use yubikey_manager.Prelude.{
  ℕ, zero, suc, ◌+◌, ◌-◌, ◌*◌, ◌/◌, ◌^◌, ◌≤◌, ◌<◌, ◌≡◌, refl, ap, sym, ◌∙◌, [], ◌∷◌, ◌++◌, reverse,
  arith, ltb, length, replicate, All, All-append, All-reverse, All-replicate, max, length-append,
  length-reverse, length-replicate, Bool-cases, inl, inr,
}
use mathlib.Core.List.{foldl-append, reverse-append, reverse-reverse}
use yubikey_manager.Prelude.Bits.{mask_255}
use yubikey_manager.Core.Bytes.{Bytes, IsByte, int2bytes_loop, int2bytes, bytes2int, rjust}

-- The number of a list of bytes, lowest first.
abbrev le_value : Bytes → ℕ
le_value [] = 0
le_value (b ∷ bs) = b + 256 * le_value bs

pub bytes2int-append : (xs : Bytes) (b : ℕ) → bytes2int (xs ++ (b ∷ [])) ≡ bytes2int xs * 256 + b
unfolding bytes2int
bytes2int-append xs b = rw foldl-append

bytes2int-reverse : (xs : Bytes) → bytes2int (reverse xs) ≡ le_value xs
bytes2int-reverse [] = unfold bytes2int in refl
bytes2int-reverse (x ∷ xs) =
    rw (reverse-append (x ∷ []) xs)
      (omega (arith, bytes2int-append (reverse xs) x, bytes2int-reverse xs))

loop_value : (fuel value : ℕ) → value ≤ fuel → le_value (int2bytes_loop fuel value) ≡ value
unfolding int2bytes_loop
loop_value zero value h = omega arith
loop_value (suc fuel) value h = ground (arith, mask_255 value, loop_value fuel (value / 256))

loop_bytes : (fuel value : ℕ) → value ≤ fuel → All IsByte (int2bytes_loop fuel value)
unfolding int2bytes_loop
loop_bytes zero value h = (omega arith, tt)
loop_bytes (suc fuel) value h = elim (Bool-cases (ltb 0xff value)) [
  | inl more ↦
      rw more ((omega (arith, mask_255 value), loop_bytes fuel (value / 256) (ground arith)))
  | inr done ↦ rw done ((ground arith, tt))
]

loop_length :
    (k fuel value : ℕ)
    → value ≤ fuel
    → value < 256 ^ suc k
    → (1 ≤ length (int2bytes_loop fuel value)) × (length (int2bytes_loop fuel value) ≤ suc k)
unfolding int2bytes_loop
loop_length k zero value h lt = (omega arith, omega arith)
loop_length zero (suc fuel) value h lt = ground arith
loop_length (suc k) (suc fuel) value h lt =
    ground (arith, loop_length k fuel (value / 256) (omega arith) (omega arith))

leading_zeros : (n : ℕ) (xs : Bytes) → bytes2int (replicate n 0 ++ xs) ≡ bytes2int xs
unfolding bytes2int
leading_zeros zero xs = refl
leading_zeros (suc n) xs = leading_zeros n xs

-- `bytes2int` reads back every number that `int2bytes` wrote, whatever the padding asked for.
pub bytes2int-int2bytes : (value min_len : ℕ) → bytes2int (int2bytes value min_len) ≡ value
unfolding int2bytes
bytes2int-int2bytes value min_len =
    leading_zeros (min_len - length (reverse (int2bytes_loop value value))) _
    ∙ bytes2int-reverse (int2bytes_loop value value)
    ∙ loop_value value value (omega arith)

pub int2bytes-IsByte : (value min_len : ℕ) → All IsByte (int2bytes value min_len)
unfolding int2bytes
int2bytes-IsByte value min_len =
    All-append IsByte (replicate (min_len - length (reverse (int2bytes_loop value value))) 0) _
      (All-replicate IsByte _ 0 (omega arith))
      (All-reverse IsByte _ (loop_bytes value value (omega arith)))

-- A number below 256 ^ k, for k from 1, takes at most k bytes or the least length that is asked
-- for, whichever is more; never less than that length, and never no byte.
pub length-int2bytes :
    (k value min_len : ℕ)
    → value < 256 ^ suc k
    → (1 ≤ length (int2bytes value min_len))
      × (min_len ≤ length (int2bytes value min_len))
      × (length (int2bytes value min_len) ≤ max min_len (suc k))
unfolding int2bytes
length-int2bytes k value min_len h = omega (
  arith,
  length-append (replicate (min_len - length (reverse (int2bytes_loop value value))) 0)
      (reverse (int2bytes_loop value value)),
  length-replicate {A = ℕ} (min_len - length (reverse (int2bytes_loop value value))) 0,
  length-reverse (int2bytes_loop value value),
  loop_length k value value (omega arith) h,
)

-- What the loop writes for a number that is not zero has no leading zero: the digits, lowest
-- first, from any digit on stand for a positive number.
abbrev IsCanonical : Bytes → Type 0
IsCanonical [] = ⊥
IsCanonical (b ∷ []) = IsByte b
IsCanonical (b ∷ c ∷ cs) = IsByte b × (0 < le_value (c ∷ cs)) × IsCanonical (c ∷ cs)

loop_canonical :
    (fuel : ℕ) (ds : Bytes)
    → le_value ds ≤ fuel
    → IsCanonical ds
    → int2bytes_loop fuel (le_value ds) ≡ ds
unfolding int2bytes_loop
loop_canonical fuel [] h c = absurd c
loop_canonical zero (b ∷ []) h c = ground arith
loop_canonical (suc fuel) (b ∷ []) h c = ground arith
loop_canonical zero (b ∷ c ∷ cs) h k = absurd (omega arith)
loop_canonical (suc fuel) (b ∷ c ∷ cs) h k = ground (
  arith,
  mask_255 (b + 256 * le_value (c ∷ cs)),
  high,
  loop_canonical fuel (c ∷ cs) (omega arith) k.2,
)
  where
    high : (b + 256 * le_value (c ∷ cs)) / 256 ≡ le_value (c ∷ cs)
    high = omega arith

snoc-IsCanonical :
    (ds : Bytes) (x : ℕ)
    → All IsByte ds
    → 0 < x
    → x < 256
    → IsCanonical (ds ++ (x ∷ [])) × (0 < le_value (ds ++ (x ∷ [])))
snoc-IsCanonical [] x h p q = (q, omega arith)
snoc-IsCanonical (d ∷ []) x h p q = ((h.0, omega arith, q), omega arith)
snoc-IsCanonical (d ∷ e ∷ ds) x h p q =
    let ih = snoc-IsCanonical (e ∷ ds) x h.1 p q in ((h.0, ih.1, ih.0), omega (arith, ih.1))

no_padding : (n : ℕ) (xs : Bytes) → n ≤ length xs → rjust n 0 xs ≡ xs
no_padding n xs h = let e : n - length xs ≡ 0 = omega arith in rw e

int2bytes_of_digits : (ds : Bytes) → IsCanonical ds → int2bytes (le_value ds) 0 ≡ reverse ds
unfolding int2bytes
int2bytes_of_digits ds c =
    no_padding 0 _ (omega arith) ∙ ap reverse (loop_canonical (le_value ds) ds (omega arith) c)

reverse-IsCanonical :
    (x : ℕ) (xs : Bytes) → 0 < x → All IsByte (x ∷ xs) → IsCanonical (reverse (x ∷ xs))
reverse-IsCanonical x xs p h =
    rw (reverse-append (x ∷ []) xs)
      (snoc-IsCanonical (reverse xs) x (All-reverse IsByte xs h.1) p h.0).0

-- `int2bytes` writes back every byte string that starts with a byte above 0.
pub int2bytes-bytes2int :
    (x : ℕ) (xs : Bytes) → 0 < x → All IsByte (x ∷ xs) → int2bytes (bytes2int (x ∷ xs)) 0 ≡ x ∷ xs
int2bytes-bytes2int x xs p h =
    let ds : Bytes = reverse (x ∷ xs) in
    ap (λ n. int2bytes n 0) (ap bytes2int (sym (reverse-reverse (x ∷ xs))) ∙ bytes2int-reverse ds)
    ∙ int2bytes_of_digits ds (reverse-IsCanonical x xs p h)
    ∙ reverse-reverse (x ∷ xs)
