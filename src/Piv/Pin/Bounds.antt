-- ===== src/Piv/Pin/Bounds.antt =====
-- The attempts that `_retries_from_sw` reads in a status word.
use yubikey_manager.Prelude.{
  ℕ, ◌+◌, ◌-◌, ◌/◌, ◌%◌, ◌<◌, ◌≤◌, ◌≡◌, ◌≢◌, ◌⊎◌, inl, inr, true, false, Bool-cases, refl, arith,
  none, some, bit_and, ◌==◌,
}
use yubikey_manager.Prelude.Bits.{bit_and_even, mask_15, mask_255}
use yubikey_manager.Core.Text.{within}
use yubikey_manager.SmartCard.Retries.Refused.{mask_65520}
use yubikey_manager.Piv.Pin.{retries_from_sw}

mask_65280 : (x : ℕ) → bit_and x 0xff00 ≡ x % 65536 - x % 256
mask_65280 x = omega (
  arith,
  bit_and_even x 32640,
  bit_and_even (x / 2) 16320,
  bit_and_even (x / 2 / 2) 8160,
  bit_and_even (x / 2 / 2 / 2) 4080,
  mask_4080 (x / 2 / 2 / 2 / 2),
)
  where
    mask_4080 : (y : ℕ) → bit_and y 4080 ≡ y % 4096 - y % 16
    mask_4080 y = omega (
      arith,
      bit_and_even y 2040,
      bit_and_even (y / 2) 1020,
      bit_and_even (y / 2 / 2) 510,
      bit_and_even (y / 2 / 2 / 2) 255,
      mask_255 (y / 2 / 2 / 2 / 2),
    )

-- A status word of 63C0 and less than sixteen attempts tells them.
pub retries_low : (n : ℕ) → n < 16 → retries_from_sw (0x63c0 + n) ≡ some n
unfolding retries_from_sw
retries_low n h = ground (arith, mask_65520 (0x63c0 + n), mask_15 (0x63c0 + n))

retries_high :
    (sw : ℕ)
    → within 0x6300 sw 0x63ff ≡ true
    → within 0x63c0 sw 0x63cf ≡ false
    → retries_from_sw sw ≡ some (sw - 0x6300)
unfolding retries_from_sw
retries_high sw w v = ground (arith, w, v, mask_65520 sw, mask_65280 sw, mask_255 sw)

retries_blocked : (sw : ℕ) → (sw == 0x6983) ≡ true → retries_from_sw sw ≡ some 0
unfolding retries_from_sw
retries_blocked sw b = rw b refl

retries_other :
    (sw : ℕ)
    → sw < 65536
    → within 0x6300 sw 0x63ff ≡ false
    → (sw == 0x6983) ≡ false
    → retries_from_sw sw ≡ none
unfolding retries_from_sw
retries_other sw h w b = ground (arith, w, b, mask_65520 sw, mask_65280 sw)

-- `_retries_from_sw` of the PIV application reads, in a status word of two bytes, the low digit
-- of 63C0 to 63CF, the low byte of any other 63xx, none left in 6983, and nothing in any other.
pub retries_from_sw_lem :
    (sw : ℕ)
    → sw < 65536
    → ((n : ℕ) × (n < 16) × (sw ≡ 0x63c0 + n) × (retries_from_sw sw ≡ some n))
      ⊎ ((n : ℕ) × (n < 256)
          × ((n < 0xc0) ⊎ (0xd0 ≤ n))
          × (sw ≡ 0x6300 + n)
          × (retries_from_sw sw ≡ some n))
      ⊎ ((sw ≡ 0x6983) × (retries_from_sw sw ≡ some 0))
      ⊎ ((sw ≢ 0x6983) × ((sw < 0x6300) ⊎ (0x6400 ≤ sw)) × (retries_from_sw sw ≡ none))
retries_from_sw_lem sw h = elim (Bool-cases (within 0x6300 sw 0x63ff)) [
  | inl w ↦ elim (Bool-cases (within 0x63c0 sw 0x63cf)) [
    | inl v ↦ inl (
      sw - 0x63c0,
      ground (arith, v),
      ground (arith, v),
      ground (arith, w, v, retries_low (sw - 0x63c0)),
    )
    | inr v ↦ inr (
        inl (
          sw - 0x6300,
          ground (arith, w),
          ground (arith, w, v),
          ground (arith, w),
          retries_high sw w v,
        ))
  ]
  | inr w ↦ elim (Bool-cases (sw == 0x6983)) [
    | inl b ↦ inr (inr (inl (ground (arith, b), retries_blocked sw b)))
    | inr b ↦ inr (inr (inr (ground (arith, b), ground (arith, w), retries_other sw h w b)))
  ]
]
