-- ===== src/Otp/Crc.antt =====
-- yubikit/core/otp.py: `calculate_crc` and `check_crc`.
pub mod Residual
use yubikey_manager.Prelude.{
  ℕ, zero, suc, ◌+◌, ◌-◌, ◌*◌, ◌/◌, ◌%◌, Bool, List, [], ◌∷◌, ◌++◌, bit_and, bit_xor, ◌==◌,
  if◌then◌else◌,
}
use yubikey_manager.Core.Bytes.{Bytes}

abbrev pub crc_ok_residual : ℕ
crc_ok_residual = 0xf0b8

-- One of the eight rounds for a byte.
unfoldable pub crc_bit : ℕ → ℕ
crc_bit crc =
    let j = bit_and crc 1 in
    let shifted = crc / 2 in if j == 1 then bit_xor shifted 0x8408 else shifted

unfoldable pub crc_bits : ℕ → ℕ → ℕ
unfolding crc_bit
crc_bits zero crc = crc
crc_bits (suc i) crc = crc_bits i (crc_bit crc)

unfoldable pub crc_byte : ℕ → ℕ → ℕ
unfolding crc_bits
crc_byte crc b = crc_bits 8 (bit_xor crc b)

-- `for index in range(len(data))`
unfoldable pub crc_loop : ℕ → Bytes → ℕ
unfolding crc_byte
crc_loop crc [] = crc
crc_loop crc (b ∷ bs) = crc_loop (crc_byte crc b) bs

unfoldable pub calculate_crc : Bytes → ℕ
unfolding crc_loop
calculate_crc data_ = bit_and (crc_loop 0xffff data_) 0xffff

unfoldable pub check_crc : Bytes → Bool
unfolding calculate_crc
check_crc data_ = calculate_crc data_ == crc_ok_residual
