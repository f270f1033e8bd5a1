-- ===== src/Prelude/Bits.antt =====
-- Laws of the bit operations: one digit at a time, then the masks and shifts that the code uses.
use Prim.Native.Nat.{
  ℕ, zero, suc, ◌+◌, ◌*◌, ◌/◌, ◌%◌, ◌^◌, ◌≤◌, ◌<◌, min, max, bit_and, bit_or, bit_xor, digits,
  bit_and-bitwise, bit_or-bitwise, bit_xor-bitwise, differ,
}
use mathlib.Core.Path.{◌≡◌, refl, sym, ap, ◌∙◌}
use mathlib.Core.Bool.{Bool, true, ◌&&◌}
use native.Mathlib.Omega.{arith}

-- The digits of 0, with any fuel, and that fuel above the number makes no difference.
module _ (z : ℕ → ℕ) (f : ℕ → ℕ → ℕ) where
  digits-zero : (fuel y : ℕ) → digits z f fuel zero y ≡ z y
  digits-zero zero y = refl
  digits-zero (suc fuel) y = refl

  same_digits :
      (x y fuel more : ℕ) → x ≤ fuel → x ≤ more → digits z f more x y ≡ digits z f fuel x y
  same_digits zero y fuel more h k = digits-zero more y ∙ sym (digits-zero fuel y)
  same_digits (suc x) y zero more h k = absurd (omega arith)
  same_digits (suc x) y (suc fuel) zero h k = absurd (omega arith)
  same_digits (suc x) y (suc fuel) (suc more) h k =
      ap (λ high. high * 2 + f (suc x % 2) (y % 2))
        (same_digits (suc x / 2) (y / 2) fuel more (omega arith) (omega arith))

  lowest_digit :
      (x y : ℕ)
      → digits z f (suc x) (suc x) y
        ≡ digits z f (suc x / 2) (suc x / 2) (y / 2) * 2 + f (suc x % 2) (y % 2)
  lowest_digit x y =
      ap (λ high. high * 2 + f (suc x % 2) (y % 2))
        (same_digits (suc x / 2) (y / 2) (suc x / 2) x (omega arith) (omega arith))

pub bit_and_step : (x y : ℕ) → bit_and x y ≡ bit_and (x / 2) (y / 2) * 2 + min (x % 2) (y % 2)
bit_and_step zero y = omega (arith, bit_and-bitwise 0 y, bit_and-bitwise 0 (y / 2))
bit_and_step (suc x) y = simp bit_and-bitwise (lowest_digit (λ low. zero) min x y)

pub bit_or_step : (x y : ℕ) → bit_or x y ≡ bit_or (x / 2) (y / 2) * 2 + max (x % 2) (y % 2)
bit_or_step zero y = omega (arith, bit_or-bitwise 0 y, bit_or-bitwise 0 (y / 2))
bit_or_step (suc x) y = simp bit_or-bitwise (lowest_digit (λ low. low) max x y)

differ_zero : (b : ℕ) → differ 0 b ≡ b
differ_zero b = refl

pub bit_xor_step : (a b : ℕ) → bit_xor a b ≡ bit_xor (a / 2) (b / 2) * 2 + differ (a % 2) (b % 2)
bit_xor_step zero b =
    omega (arith, bit_xor-bitwise 0 b, bit_xor-bitwise 0 (b / 2), differ_zero (b % 2))
bit_xor_step (suc a) b = simp bit_xor-bitwise (lowest_digit (λ low. low) differ a b)

-- With zero on the right.
pub bit_and-zero : (a : ℕ) → bit_and a 0 ≡ 0
bit_and-zero a = bit_and_zero_fuel a a (omega arith)
  where
    bit_and_zero_fuel : (n a : ℕ) → a ≤ n → bit_and a 0 ≡ 0
    bit_and_zero_fuel n zero h = refl
    bit_and_zero_fuel zero (suc a) h = absurd (omega arith)
    bit_and_zero_fuel (suc n) (suc a) h =
        omega (arith, bit_and_step (suc a) 0, bit_and_zero_fuel n (suc a / 2) (omega arith))

pub bit_or-zero : (a : ℕ) → bit_or a 0 ≡ a
bit_or-zero a = bit_or_zero_fuel a a (omega arith)
  where
    bit_or_zero_fuel : (n a : ℕ) → a ≤ n → bit_or a 0 ≡ a
    bit_or_zero_fuel n zero h = refl
    bit_or_zero_fuel zero (suc a) h = absurd (omega arith)
    bit_or_zero_fuel (suc n) (suc a) h =
        omega (arith, bit_or_step (suc a) 0, bit_or_zero_fuel n (suc a / 2) (omega arith))

pub bit_xor-zero : (a : ℕ) → bit_xor a 0 ≡ a
bit_xor-zero a = bit_xor_zero_fuel a a (omega arith)
  where
    differ-zero : (b : ℕ) → differ b 0 ≡ b
    differ-zero zero = refl
    differ-zero (suc b) = refl

    bit_xor_zero_fuel : (n a : ℕ) → a ≤ n → bit_xor a 0 ≡ a
    bit_xor_zero_fuel n zero h = refl
    bit_xor_zero_fuel zero (suc a) h = absurd (omega arith)
    bit_xor_zero_fuel (suc n) (suc a) h = omega (
      arith,
      bit_xor_step (suc a) 0,
      differ-zero (suc a % 2),
      bit_xor_zero_fuel n (suc a / 2) (omega arith),
    )

-- A mask of ones, grown by one digit.
pub bit_and_odd : (x m : ℕ) → bit_and x (2 * m + 1) ≡ bit_and (x / 2) m * 2 + x % 2
bit_and_odd x m =
    omega (arith, bit_and_step x (2 * m + 1), ap (λ t. bit_and (x / 2) t) (half_odd m))
  where
    half_odd : (m : ℕ) → (2 * m + 1) / 2 ≡ m
    half_odd m = omega arith

-- A mask moved up by one digit.
pub bit_and_even : (x m : ℕ) → bit_and x (2 * m) ≡ bit_and (x / 2) m * 2
bit_and_even x m = omega (arith, bit_and_step x (2 * m), ap (λ t. bit_and (x / 2) t) (half_even m))
  where
    half_even : (m : ℕ) → (2 * m) / 2 ≡ m
    half_even m = omega arith

pub mask_1 : (x : ℕ) → bit_and x 0x01 ≡ x % 2
mask_1 x = omega (arith, bit_and_odd x 0, bit_and-zero (x / 2))

mask_3 : (x : ℕ) → bit_and x 0x03 ≡ x % 4
mask_3 x = omega (arith, bit_and_odd x 1, mask_1 (x / 2))

pub mask_7 : (x : ℕ) → bit_and x 0x07 ≡ x % 8
mask_7 x = omega (arith, bit_and_odd x 3, mask_3 (x / 2))

pub mask_15 : (x : ℕ) → bit_and x 0x0f ≡ x % 16
mask_15 x = omega (arith, bit_and_odd x 7, mask_7 (x / 2))

pub mask_31 : (x : ℕ) → bit_and x 0x1f ≡ x % 32
mask_31 x = omega (arith, bit_and_odd x 15, mask_15 (x / 2))

mask_63 : (x : ℕ) → bit_and x 0x3f ≡ x % 64
mask_63 x = omega (arith, bit_and_odd x 31, mask_31 (x / 2))

pub mask_127 : (x : ℕ) → bit_and x 0x7f ≡ x % 128
mask_127 x = omega (arith, bit_and_odd x 63, mask_63 (x / 2))

pub mask_255 : (x : ℕ) → bit_and x 0xff ≡ x % 256
mask_255 x = omega (arith, bit_and_odd x 127, mask_127 (x / 2))

mask_511 : (x : ℕ) → bit_and x 0x1ff ≡ x % 512
mask_511 x = omega (arith, bit_and_odd x 255, mask_255 (x / 2))

mask_1023 : (x : ℕ) → bit_and x 0x3ff ≡ x % 1024
mask_1023 x = omega (arith, bit_and_odd x 511, mask_511 (x / 2))

mask_2047 : (x : ℕ) → bit_and x 0x7ff ≡ x % 2048
mask_2047 x = omega (arith, bit_and_odd x 1023, mask_1023 (x / 2))

pub mask_4095 : (x : ℕ) → bit_and x 0xfff ≡ x % 4096
mask_4095 x = omega (arith, bit_and_odd x 2047, mask_2047 (x / 2))

mask_8191 : (x : ℕ) → bit_and x 0x1fff ≡ x % 8192
mask_8191 x = omega (arith, bit_and_odd x 4095, mask_4095 (x / 2))

mask_16383 : (x : ℕ) → bit_and x 0x3fff ≡ x % 16384
mask_16383 x = omega (arith, bit_and_odd x 8191, mask_8191 (x / 2))

mask_32767 : (x : ℕ) → bit_and x 0x7fff ≡ x % 32768
mask_32767 x = omega (arith, bit_and_odd x 16383, mask_16383 (x / 2))

pub mask_65535 : (x : ℕ) → bit_and x 0xffff ≡ x % 65536
mask_65535 x = omega (arith, bit_and_odd x 32767, mask_32767 (x / 2))

bit_1 : (x : ℕ) → bit_and x 0x02 ≡ x / 2 % 2 * 2
bit_1 x = omega (arith, bit_and_even x 1, mask_1 (x / 2))

bit_2 : (x : ℕ) → bit_and x 0x04 ≡ x / 4 % 2 * 4
bit_2 x = omega (arith, bit_and_even x 2, bit_1 (x / 2))

bit_3 : (x : ℕ) → bit_and x 0x08 ≡ x / 8 % 2 * 8
bit_3 x = omega (arith, bit_and_even x 4, bit_2 (x / 2))

bit_4 : (x : ℕ) → bit_and x 0x10 ≡ x / 16 % 2 * 16
bit_4 x = omega (arith, bit_and_even x 8, bit_3 (x / 2))

bit_5 : (x : ℕ) → bit_and x 0x20 ≡ x / 32 % 2 * 32
bit_5 x = omega (arith, bit_and_even x 16, bit_4 (x / 2))

pub bit_6 : (x : ℕ) → bit_and x 0x40 ≡ x / 64 % 2 * 64
bit_6 x = omega (arith, bit_and_even x 32, bit_5 (x / 2))

pub bit_7 : (x : ℕ) → bit_and x 0x80 ≡ x / 128 % 2 * 128
bit_7 x = omega (arith, bit_and_even x 64, bit_6 (x / 2))

-- A byte put below a number: `x << 8 | b`.
or_digit : (a b c : ℕ) → c ≡ 2 * a → bit_or c b ≡ bit_or a (b / 2) * 2 + b % 2
or_digit a b c h = omega (arith, bit_or_step c b, ap (λ t. bit_or t (b / 2)) half)
  where
    half : c / 2 ≡ a
    half = omega arith

pub or_byte : (a b : ℕ) → b < 256 → bit_or (a * 256) b ≡ a * 256 + b
or_byte a b h = omega (
  arith,
  or_digit (a * 128) b (a * 256) (omega arith),
  or_digit (a * 64) (b / 2) (a * 128) (omega arith),
  or_digit (a * 32) (b / 2 / 2) (a * 64) (omega arith),
  or_digit (a * 16) (b / 2 / 2 / 2) (a * 32) (omega arith),
  or_digit (a * 8) (b / 2 / 2 / 2 / 2) (a * 16) (omega arith),
  or_digit (a * 4) (b / 2 / 2 / 2 / 2 / 2) (a * 8) (omega arith),
  or_digit (a * 2) (b / 2 / 2 / 2 / 2 / 2 / 2) (a * 4) (omega arith),
  or_digit a (b / 2 / 2 / 2 / 2 / 2 / 2 / 2) (a * 2) (omega arith),
  ap (λ t. bit_or a t) high,
  bit_or-zero a,
)
  where
    high : b / 2 / 2 / 2 / 2 / 2 / 2 / 2 / 2 ≡ 0
    high = omega arith

-- Five bits put below a number: `x << 5 | b`.
pub or_five : (a b : ℕ) → b < 32 → bit_or (a * 32) b ≡ a * 32 + b
or_five a b h = omega (
  arith,
  or_digit (a * 16) b (a * 32) (omega arith),
  or_digit (a * 8) (b / 2) (a * 16) (omega arith),
  or_digit (a * 4) (b / 2 / 2) (a * 8) (omega arith),
  or_digit (a * 2) (b / 2 / 2 / 2) (a * 4) (omega arith),
  or_digit a (b / 2 / 2 / 2 / 2) (a * 2) (omega arith),
  ap (λ t. bit_or a t) high,
  bit_or-zero a,
)
  where
    high : b / 2 / 2 / 2 / 2 / 2 ≡ 0
    high = omega arith

max_lt : (x y : ℕ) → x < 2 → y < 2 → max x y < 2
max_lt x y p q = omega arith

pub bit_or_lt : (k a b : ℕ) → a < 2 ^ k → b < 2 ^ k → bit_or a b < 2 ^ k
bit_or_lt zero zero zero p q = omega (arith, bit_or-zero 0)
bit_or_lt zero zero (suc b) p q = absurd (omega arith)
bit_or_lt zero (suc a) b p q = absurd (omega arith)
bit_or_lt (suc k) a b p q = omega (
  arith,
  bit_or_step a b,
  max_lt (a % 2) (b % 2) (omega arith) (omega arith),
  bit_or_lt k (a / 2) (b / 2) (omega arith) (omega arith),
)

differ_lt : (x y : ℕ) → x < 2 → y < 2 → differ x y < 2
differ_lt zero y p q = q
differ_lt (suc zero) zero p q = omega arith
differ_lt (suc zero) (suc zero) p q = omega arith
differ_lt (suc zero) (suc (suc y)) p q = absurd (omega (arith, q))
differ_lt (suc (suc x)) y p q = absurd (omega (arith, p))

pub bit_xor_lt : (k a b : ℕ) → a < 2 ^ k → b < 2 ^ k → bit_xor a b < 2 ^ k
bit_xor_lt zero zero zero p q = omega (arith, bit_xor-zero 0)
bit_xor_lt zero zero (suc b) p q = absurd (omega arith)
bit_xor_lt zero (suc a) b p q = absurd (omega arith)
bit_xor_lt (suc k) a b p q = omega (
  arith,
  bit_xor_step a b,
  differ_lt (a % 2) (b % 2) (omega arith) (omega arith),
  bit_xor_lt k (a / 2) (b / 2) (omega arith) (omega arith),
)

-- Over a small range, check every value by evaluation.
unfoldable pub all_below : ℕ → (ℕ → Bool) → Bool
all_below zero p = true
all_below (suc n) p = p n && all_below n p

pub all_below_sound :
    (bound : ℕ) (test : ℕ → Bool) (i : ℕ) → all_below bound test ≡ true → i < bound → test i ≡ true
unfolding all_below
all_below_sound zero test i passed below = absurd (omega arith)
all_below_sound (suc bound) test i passed below = ground (arith, all_below_sound bound test i)
