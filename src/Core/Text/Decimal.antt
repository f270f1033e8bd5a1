-- ===== src/Core/Text/Decimal.antt =====
-- A number that is printed in decimal has its digits, and as many as it needs.
use yubikey_manager.Prelude.{
  ℕ, zero, suc, ◌+◌, ◌-◌, ◌*◌, ◌/◌, ◌%◌, ◌^◌, ◌<◌, ◌≤◌, ◌≡◌, ◌∙◌, ap, refl, [], ◌∷◌, ◌++◌, arith,
  ltb, length, length-append, All, All-append, Bool-cases, inl, inr,
}
use yubikey_manager.Core.Text.{Text, digits_loop, show}

abbrev pub IsDigit : ℕ → Type 0
IsDigit c = (48 ≤ c) × (c < 58)

-- The number that digits make.
abbrev pub add_digit : ℕ → ℕ → ℕ
add_digit n c = n * 10 + (c - 48)

unfoldable pub digits_value : ℕ → Text → ℕ
digits_value n [] = n
digits_value n (c ∷ cs) = digits_value (add_digit n c) cs

pub digits_value-append :
    (xs : Text) (c n : ℕ) → digits_value n (xs ++ (c ∷ [])) ≡ add_digit (digits_value n xs) c
unfolding digits_value
digits_value-append [] c n = refl
digits_value-append (x ∷ xs) c n = digits_value-append xs c (add_digit n x)

loop_value : (fuel n : ℕ) → n ≤ fuel → digits_value 0 (digits_loop fuel n) ≡ n
unfolding digits_loop
loop_value zero n h = unfold digits_value in omega arith
loop_value (suc fuel) n h = elim (Bool-cases (ltb n 10)) [
  | inl p ↦ rw p (unfold digits_value in omega arith)
  | inr p ↦ rw p (
      digits_value-append (digits_loop fuel (n / 10)) (48 + n % 10) 0
      ∙ ap (λ m. add_digit m (48 + n % 10)) (loop_value fuel (n / 10) (ground (arith, p)))
      ∙ omega arith)
]

loop_digits : (fuel n : ℕ) → n ≤ fuel → All IsDigit (digits_loop fuel n)
unfolding digits_loop
loop_digits zero n h = omega arith
loop_digits (suc fuel) n h = elim (Bool-cases (ltb n 10)) [
  | inl p ↦ rw p (ground (arith, p))
  | inr p ↦ rw p (
      All-append IsDigit (digits_loop fuel (n / 10)) _
        (loop_digits fuel (n / 10) (ground (arith, p))) (omega arith))
]

loop_length :
    (k fuel n : ℕ)
    → n < 10 ^ suc k
    → (1 ≤ length (digits_loop fuel n)) × (length (digits_loop fuel n) ≤ suc k)
unfolding digits_loop
loop_length k zero n h = omega arith
loop_length zero (suc fuel) n h = ground arith
loop_length (suc k) (suc fuel) n h = ground (
  arith,
  loop_length k fuel (n / 10) (omega arith),
  length-append (digits_loop fuel (n / 10)) ((48 + n % 10) ∷ []),
)

loop_nonempty : (fuel n : ℕ) → 1 ≤ length (digits_loop fuel n)
unfolding digits_loop
loop_nonempty zero n = omega arith
loop_nonempty (suc fuel) n =
    ground (arith, length-append (digits_loop fuel (n / 10)) ((48 + n % 10) ∷ []))

pub show_nonempty : (n : ℕ) → 1 ≤ length (show n)
unfolding show
show_nonempty n = loop_nonempty n n

-- The digits of a number, read from the left, make it again.
pub digits_value-show : (n : ℕ) → digits_value 0 (show n) ≡ n
unfolding show
digits_value-show n = loop_value n n (omega arith)

pub show-IsDigit : (n : ℕ) → All IsDigit (show n)
unfolding show
show-IsDigit n = loop_digits n n (omega arith)

-- A number below 10 ^ k, for k from 1, has at most k digits, and at least one.
pub length-show : (k n : ℕ) → n < 10 ^ suc k → (1 ≤ length (show n)) × (length (show n) ≤ suc k)
unfolding show
length-show k n h = loop_length k n n h
