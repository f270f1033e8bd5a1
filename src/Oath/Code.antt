-- ===== src/Oath/Code.antt =====
-- yubikit/oath.py: the challenge for a time, and the code in a response.
pub mod Digits
use yubikey_manager.Prelude.{
  ℕ, ◌+◌, ◌*◌, ◌/◌, ◌%◌, ◌^◌, Bool, true, false, Option, none, some, List, [], ◌∷◌, bit_and, ◌==◌,
  if◌then◌else◌, drop,
}
use yubikey_manager.Core.Error.{Result, ok, err, zero_division_error, ◌>>=◌}
use yubikey_manager.Core.Bytes.{Bytes, bytes2int, rjust, byte_at, pack_be64}
use yubikey_manager.Core.Text.{Text, show}
use yubikey_manager.Oath.Credential.{OathType, hotp, totp, Credential}

pub record Code : Type 0 where
  pub value : Text
  pub valid_from : ℕ
  pub valid_to : ℕ

-- `a // b`
unfoldable pub floor_div : ℕ → ℕ → Result ℕ
floor_div a b = let q = a / b in if b == 0 then err zero_division_error else ok q

-- `_get_challenge`
unfoldable pub get_challenge : ℕ → ℕ → Result Bytes
get_challenge timestamp period = do time_step ← floor_div timestamp period; pack_be64 time_step

-- The seconds from which and up to which a code holds.
unfoldable pub validity : OathType → ℕ → ℕ → Result (ℕ × ℕ)
validity totp period timestamp = do
  time_step ← floor_div timestamp period
  ok (time_step * period, (time_step + 1) * period)
validity hotp period timestamp = ok (timestamp, 0x7fffffffffffffff)

-- `str(n).rjust(digits, "0")` of the digits that are kept
unfoldable pub code_value : ℕ → Bytes → Text
code_value digits number =
    rjust digits 48 (show (bit_and (bytes2int number) 0x7fffffff % 10 ^ digits))

-- `_format_code`
unfoldable pub format_code : Credential → ℕ → Bytes → Result Code
format_code credential timestamp truncated = do
  (valid_from, valid_to) ← validity credential.oath_type credential.period timestamp
  digits ← byte_at truncated 0
  ok (record {
    value = code_value digits (drop 1 truncated);
    valid_from = valid_from;
    valid_to = valid_to;
  })
