-- ===== src/Piv/Fascn/Binary.antt =====
-- Bits against the number they make: `int(bs, 2)` and a format with leading zeros.
use yubikey_manager.Prelude.{
  ℕ, zero, suc, ◌+◌, ◌-◌, ◌*◌, ◌/◌, ◌%◌, ◌^◌, ◌≤◌, ◌<◌, ◌≡◌, ◌∙◌, refl, sym, ap, subst, [], ◌∷◌,
  ◌++◌, reverse, length, replicate, length-append, length-reverse, append_assoc, All, All-reverse,
  arith, ltb, Bool-cases, inl, inr,
}
use mathlib.Core.List.{foldl-append, reverse-append, reverse-reverse}
use yubikey_manager.Core.Bytes.{rjust}
use yubikey_manager.Piv.Fascn.{Bits, bits_value, binary_loop}

abbrev pub IsBit : ℕ → Type 0
IsBit b = b < 2

-- So many binary digits of a number, the lowest last.
unfoldable pub fixed : ℕ → ℕ → Bits
fixed zero n = []
fixed (suc k) n = fixed k (n / 2) ++ (n % 2 ∷ [])

-- The number of bits, lowest first.
abbrev le_value : Bits → ℕ
le_value [] = 0
le_value (b ∷ bs) = b + 2 * le_value bs

bits_value-append : (xs : Bits) (b : ℕ) → bits_value (xs ++ (b ∷ [])) ≡ bits_value xs * 2 + b
unfolding bits_value
bits_value-append xs b = rw foldl-append

bits_value-reverse : (xs : Bits) → bits_value (reverse xs) ≡ le_value xs
bits_value-reverse [] = unfold bits_value in refl
bits_value-reverse (x ∷ xs) =
    rw (reverse-append (x ∷ []) xs)
      (omega (arith, bits_value-append (reverse xs) x, bits_value-reverse xs))

fixed-le_value : (xs : Bits) → All IsBit xs → fixed (length xs) (le_value xs) ≡ reverse xs
unfolding fixed
fixed-le_value [] h = refl
fixed-le_value (x ∷ xs) h =
    ap (λ n. fixed (length xs) n ++ ((x + 2 * le_value xs) % 2 ∷ [])) (omega (arith, h.0))
    ∙ ap (λ b. fixed (length xs) (le_value xs) ++ (b ∷ [])) (omega (arith, h.0))
    ∙ ap (λ r. r ++ (x ∷ [])) (fixed-le_value xs h.1)
    ∙ sym (reverse-append (x ∷ []) xs)

le_value_lt : (xs : Bits) → All IsBit xs → le_value xs < 2 ^ length xs
le_value_lt [] h = omega arith
le_value_lt (x ∷ xs) h =
    let small : le_value xs < 2 ^ length xs = le_value_lt xs h.1 in
    let grown : x + 2 * le_value xs < 2 ^ suc (length xs) = omega (arith, h.0, small) in grown

zero_last : (k : ℕ) → ◌≡◌ {A = Bits} (replicate k 0 ++ (0 ∷ [])) (0 ∷ replicate k 0)
zero_last zero = refl
zero_last (suc k) = ap (λ r. 0 ∷ r) (zero_last k)

zeros_fixed : (k : ℕ) → ◌≡◌ {A = Bits} (fixed k 0) (replicate k 0)
unfolding fixed
zeros_fixed zero = refl
zeros_fixed (suc k) = ap (λ r. r ++ (0 ∷ [])) (zeros_fixed k) ∙ zero_last k

one_bit : (k n : ℕ) → n < 2 → rjust (suc k) 0 (n ∷ []) ≡ fixed k (n / 2) ++ (n % 2 ∷ [])
one_bit k n h =
    ap (λ m. replicate m 0 ++ (n ∷ [])) (omega arith)
    ∙ ap (λ r. r ++ (n ∷ [])) (sym (zeros_fixed k))
    ∙ ap (λ m. fixed k m ++ (n ∷ [])) (omega arith)
    ∙ ap (λ m. fixed k (n / 2) ++ (m ∷ [])) (omega arith)

rjust_last : (k b : ℕ) (xs : Bits) → rjust (suc k) 0 (xs ++ (b ∷ [])) ≡ rjust k 0 xs ++ (b ∷ [])
rjust_last k b xs =
    ap (λ m. replicate m 0 ++ (xs ++ (b ∷ []))) (omega (arith, length-append xs (b ∷ [])))
    ∙ sym (append_assoc (replicate (k - length xs) 0) xs (b ∷ []))

binary_fixed :
    (k fuel n : ℕ)
    → n ≤ fuel
    → n < 2 ^ suc k
    → rjust (suc k) 0 (binary_loop fuel n) ≡ fixed (suc k) n
unfolding binary_loop fixed
binary_fixed k zero n h l = one_bit k n (omega (arith, h))
binary_fixed zero (suc fuel) n h l = elim (Bool-cases (ltb n 2)) [
  | inl p ↦ rw p (one_bit zero n (ground (arith, p)))
  | inr p ↦ absurd (ground (arith, p, l))
]
binary_fixed (suc k) (suc fuel) n h l = elim (Bool-cases (ltb n 2)) [
  | inl p ↦ rw p (one_bit (suc k) n (ground (arith, p)))
  | inr p ↦ rw p (
      rjust_last (suc k) (n % 2) (binary_loop fuel (n / 2))
      ∙ ap (λ r. r ++ (n % 2 ∷ []))
          (binary_fixed k fuel (n / 2) (ground (arith, p, h)) (omega (arith, l))))
]

-- As many digits as bits are those that made the number.
fixed-bits_value : (bs : Bits) → All IsBit bs → fixed (length bs) (bits_value bs) ≡ bs
fixed-bits_value bs h =
    ap (λ k. fixed k (bits_value bs)) (sym (length-reverse bs))
    ∙ ap (λ n. fixed (length (reverse bs)) n)
        (ap bits_value (sym (reverse-reverse bs)) ∙ bits_value-reverse (reverse bs))
    ∙ fixed-le_value (reverse bs) (All-reverse IsBit bs h)
    ∙ reverse-reverse bs

pub bits_value_lt : (bs : Bits) → All IsBit bs → bits_value bs < 2 ^ length bs
bits_value_lt bs h = rw (sym (length-reverse bs)) (
    rw (ap bits_value (sym (reverse-reverse bs)) ∙ bits_value-reverse (reverse bs))
      (le_value_lt (reverse bs) (All-reverse IsBit bs h)))

append_last : (xs ys : Bits) (b : ℕ) → (xs ++ ys) ++ (b ∷ []) ≡ xs ++ (ys ++ (b ∷ []))
append_last xs ys b = append_assoc xs ys (b ∷ [])

-- Five digits more go behind the others.
fixed_five :
    (k n : ℕ)
    → (rest : Bits) × (fixed (suc (suc (suc (suc (suc k))))) n
        ≡ fixed k (n / 2 / 2 / 2 / 2 / 2) ++ rest)
unfolding fixed
fixed_five k n =
    let xs : Bits = fixed k (n / 2 / 2 / 2 / 2 / 2) in
    let a : ℕ = n / 2 / 2 / 2 / 2 % 2 in
    let b : ℕ = n / 2 / 2 / 2 % 2 in
    let c : ℕ = n / 2 / 2 % 2 in
    let d : ℕ = n / 2 % 2 in
    let e : ℕ = n % 2 in
    (
      a ∷ b ∷ c ∷ d ∷ e ∷ [],
      ap (λ r. ((r ++ (c ∷ [])) ++ (d ∷ [])) ++ (e ∷ [])) (append_last xs (a ∷ []) b)
          ∙ ap (λ r. (r ++ (d ∷ [])) ++ (e ∷ [])) (append_last xs (a ∷ b ∷ []) c)
          ∙ ap (λ r. r ++ (e ∷ [])) (append_last xs (a ∷ b ∷ c ∷ []) d)
          ∙ append_last xs (a ∷ b ∷ c ∷ d ∷ []) e,
    )

-- A number of 195 bits with five bits below is printed with these bits first.
pub printed_bits :
    (bs : Bits) (low : ℕ)
    → All IsBit bs
    → length bs ≡ 195
    → low < 32
    → (rest : Bits) × (rjust 200 0
          (binary_loop (bits_value bs * 32 + low) (bits_value bs * 32 + low))
        ≡ bs ++ rest)
printed_bits bs low h len small =
    let v : ℕ = bits_value bs in
    let bound : v < 2 ^ 195 = subst (λ k. bits_value bs < 2 ^ k) len (bits_value_lt bs h) in
    let (rest, e) = fixed_five 195 (v * 32 + low) in
    (
      rest,
      binary_fixed 199 (v * 32 + low) (v * 32 + low) (omega arith) (omega (arith, bound, small))
          ∙ e
          ∙ ap (λ n. fixed 195 n ++ rest) (omega (arith, small))
          ∙ ap (λ k. fixed k v ++ rest) (sym len)
          ∙ ap (λ r. r ++ rest) (fixed-bits_value bs h),
    )
