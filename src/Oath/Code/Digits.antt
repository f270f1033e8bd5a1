-- ===== src/Oath/Code/Digits.antt =====
-- A code has the digits that the response asks for, and holds at the time it was made for.
use yubikey_manager.Prelude.{
  ℕ, zero, suc, ◌+◌, ◌-◌, ◌*◌, ◌/◌, ◌%◌, ◌^◌, ◌≤◌, ◌<◌, ◌≡◌, ◌∙◌, refl, arith, ◌∷◌, ◌++◌, length,
  replicate, length-append, length-replicate, All, All-append, All-replicate, bit_and,
}
use native.Mathlib.Nat.{mod-lt}
use yubikey_manager.Core.Error.{ok}
use yubikey_manager.Core.Bytes.{Bytes, bytes2int}
use yubikey_manager.Core.Text.{Text, show}
use yubikey_manager.Core.Text.Decimal.{
  IsDigit, digits_value, digits_value-show, show-IsDigit, length-show,
}
use yubikey_manager.Oath.Credential.{OathType, hotp, totp, Credential}
use yubikey_manager.Oath.Code.{Code, floor_div, validity, code_value, format_code}

leading_zeros : (n : ℕ) (s : Text) → digits_value 0 (replicate n 48 ++ s) ≡ digits_value 0 s
unfolding digits_value
leading_zeros zero s = refl
leading_zeros (suc n) s = leading_zeros n s

pow_pos : (k : ℕ) → 1 ≤ 10 ^ k
pow_pos zero = omega arith
pow_pos (suc k) = omega (arith, pow_pos k)

-- A text of exactly that many decimal digits, which make that number.
abbrev pub IsNumeral : ℕ → ℕ → Text → Type 0
IsNumeral digits n s = (length s ≡ digits) × All IsDigit s × (digits_value 0 s ≡ n)

code_value-IsNumeral :
    (k : ℕ) (number : Bytes)
    → IsNumeral
        (suc k)
        (bit_and (bytes2int number) 0x7fffffff % 10 ^ suc k)
        (code_value (suc k) number)
unfolding code_value
code_value-IsNumeral k number =
    let n : ℕ = bit_and (bytes2int number) 0x7fffffff % 10 ^ suc k in
    let fits : (1 ≤ length (show n)) × (length (show n) ≤ suc k) =
      length-show k n (mod-lt (bit_and (bytes2int number) 0x7fffffff) (pow_pos (suc k))) in
    (
      omega (
        arith,
        fits,
        length-append (replicate (suc k - length (show n)) 48) (show n),
        length-replicate {A = ℕ} (suc k - length (show n)) 48,
      ),
      All-append IsDigit (replicate (suc k - length (show n)) 48) (show n)
          (All-replicate IsDigit (suc k - length (show n)) 48 (omega arith)) (show-IsDigit n),
      leading_zeros (suc k - length (show n)) (show n) ∙ digits_value-show n,
    )

validity_total :
    (type : OathType) (period timestamp : ℕ)
    → 1 ≤ period
    → timestamp < 0x7fffffffffffffff
    → (a : ℕ) × (b : ℕ) × (validity type period timestamp ≡ ok (a, b))
      × (a ≤ timestamp)
      × (timestamp < b)
unfolding validity floor_div
validity_total hotp period timestamp p t = (timestamp, 0x7fffffffffffffff, refl, omega arith, t)
validity_total totp period timestamp p t = (
  timestamp / period * period,
  (timestamp / period + 1) * period,
  ground arith,
  omega arith,
  omega arith,
)

-- The value of a code has exactly the digits that the response asks for, at least one, and they
-- make its number, cut to 31 bits, modulo the power of ten; the code holds at the timestamp. The
-- period is not 0, and the timestamp is below 2 ^ 63 - 1.
pub format_code-IsNumeral :
    (c : Credential) (timestamp k : ℕ) (number : Bytes)
    → 1 ≤ c.period
    → timestamp < 0x7fffffffffffffff
    → (code : Code) × (format_code c timestamp (suc k ∷ number) ≡ ok code)
      × IsNumeral (suc k) (bit_and (bytes2int number) 0x7fffffff % 10 ^ suc k) code.value
      × (code.valid_from ≤ timestamp)
      × (timestamp < code.valid_to)
unfolding format_code
format_code-IsNumeral c timestamp k number p t =
    let (a, b, e, lo, hi) = validity_total c.oath_type c.period timestamp p t in
    (
      record { value = code_value (suc k) number; valid_from = a; valid_to = b },
      rw e refl,
      code_value-IsNumeral k number,
      lo,
      hi,
    )
