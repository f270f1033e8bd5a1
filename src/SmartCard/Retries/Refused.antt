-- ===== src/SmartCard/Retries/Refused.antt =====
-- Which status words tell the attempts that remain.
use yubikey_manager.Prelude.{ℕ, ◌+◌, ◌-◌, ◌/◌, ◌%◌, ◌<◌, ◌≤◌, ◌≡◌, arith, ◌⊎◌, none, some, bit_and}
use yubikey_manager.Prelude.Bits.{bit_and_even, mask_4095}
use yubikey_manager.SmartCard.Retries.{retries_from_sw}

pub mask_65520 : (x : ℕ) → bit_and x 0xfff0 ≡ x % 65536 - x % 16
mask_65520 x = omega (
  arith,
  bit_and_even x 32760,
  bit_and_even (x / 2) 16380,
  bit_and_even (x / 2 / 2) 8190,
  bit_and_even (x / 2 / 2 / 2) 4095,
  mask_4095 (x / 2 / 2 / 2 / 2),
)

-- A status word of 63C0 and up to fifteen more attempts tells them.
pub retries_some : (n : ℕ) → n < 16 → retries_from_sw (0x63c0 + n) ≡ some n
unfolding retries_from_sw
retries_some n h = ground (arith, mask_65520 (0x63c0 + n))

-- No other status word of two bytes does.
pub retries_none : (sw : ℕ) → sw < 65536 → (sw < 0x63c0) ⊎ (0x63d0 ≤ sw) → retries_from_sw sw ≡ none
unfolding retries_from_sw
retries_none sw h o = ground (arith, mask_65520 sw)
