-- ===== src/Otp/Crc/Residual.antt =====
-- A message followed by its inverted checksum, low byte first, passes `check_crc`.
use yubikey_manager.Prelude.{
  ℕ, zero, suc, ◌+◌, ◌-◌, ◌*◌, ◌/◌, ◌%◌, ◌^◌, ◌<◌, ◌≡◌, ◌∙◌, ap, sym, refl, true, [], ◌∷◌, ◌++◌,
  arith, bit_xor, ◌==◌, ==_iff, All, All-append,
}
use Prim.Native.Nat.{differ}
use yubikey_manager.Prelude.Bits.{
  all_below, all_below_sound, bit_xor_step, bit_xor-zero, mask_65535,
}
use yubikey_manager.Core.Bytes.{Bytes, IsByte}
use yubikey_manager.Otp.Crc.{
  crc_bit, crc_bits, crc_byte, crc_loop, calculate_crc, check_crc, crc_ok_residual,
}

crc_loop-append :
    (xs ys : Bytes) (crc : ℕ) → crc_loop crc (xs ++ ys) ≡ crc_loop (crc_loop crc xs) ys
unfolding crc_loop
crc_loop-append [] ys crc = refl
crc_loop-append (x ∷ xs) ys crc = crc_loop-append xs ys (crc_byte crc x)

-- Behind the low byte 0xff, whatever the high byte, the second checksum byte ends at the residual.
residual_table :
    all_below 256 (λ h. crc_byte (crc_byte (h * 256 + 0xff) 0) (255 - h) == crc_ok_residual) ≡ true
unfolding all_below crc_byte
residual_table = refl

differ_lt : (x y : ℕ) → x < 2 → y < 2 → differ x y < 2
differ_lt zero y p q = q
differ_lt (suc x) zero p q = p
differ_lt (suc zero) (suc zero) p q = omega arith
differ_lt (suc zero) (suc (suc y)) p q = absurd (omega arith)
differ_lt (suc (suc x)) (suc y) p q = absurd (omega arith)

bit_xor_lt : (k a b : ℕ) → a < 2 ^ k → b < 2 ^ k → bit_xor a b < 2 ^ k
bit_xor_lt zero zero zero p q = omega arith
bit_xor_lt zero zero (suc b) p q = absurd (omega arith)
bit_xor_lt zero (suc a) b p q = absurd (omega arith)
bit_xor_lt (suc k) a b p q = omega (
  arith,
  bit_xor_step a b,
  differ_lt (a % 2) (b % 2) (omega arith) (omega arith),
  bit_xor_lt k (a / 2) (b / 2) (omega arith) (omega arith),
)

-- The bits above the byte stay as they are.
bit_xor_high :
    (k h l b : ℕ) → l < 2 ^ k → b < 2 ^ k → bit_xor (h * 2 ^ k + l) b ≡ h * 2 ^ k + bit_xor l b
bit_xor_high zero h zero zero p q = omega (arith, bit_xor-zero (h * 2 ^ 0 + 0), bit_xor-zero 0)
bit_xor_high zero h zero (suc b) p q = absurd (omega arith)
bit_xor_high zero h (suc l) b p q = absurd (omega arith)
bit_xor_high (suc k) h l b p q = omega (
  arith,
  bit_xor_step (h * 2 ^ suc k + l) b,
  bit_xor_step l b,
  bit_xor_high k h (l / 2) (b / 2) (omega arith) (omega arith),
  ap (λ (t : ℕ). h * t) doubled,
  ap (λ t. bit_xor t (b / 2)) half,
  ap (λ t. differ t (b % 2)) parity,
)
  where
    doubled : 2 ^ suc k ≡ 2 ^ k * 2
    doubled = omega arith

    half : (h * 2 ^ suc k + l) / 2 ≡ h * 2 ^ k + l / 2
    half = omega (arith, ap (λ (t : ℕ). h * t) doubled)

    parity : (h * 2 ^ suc k + l) % 2 ≡ l % 2
    parity = omega (arith, ap (λ (t : ℕ). h * t) doubled)

complement_table : all_below 256 (λ l. bit_xor l (255 - l) == 255) ≡ true
complement_table = unfold all_below in refl

xor_complement : (l : ℕ) → l < 256 → bit_xor l (255 - l) ≡ 255
xor_complement l h =
    (==_iff _ 255).0 (all_below_sound 256 (λ l. bit_xor l (255 - l) == 255) l complement_table h)

crc_bit_lt : (crc : ℕ) → crc < 65536 → crc_bit crc < 65536
unfolding crc_bit
crc_bit_lt crc h = ground (arith, bit_xor_lt 16 (crc / 2) 0x8408)

crc_bits_lt : (i crc : ℕ) → crc < 65536 → crc_bits i crc < 65536
unfolding crc_bits
crc_bits_lt zero crc h = h
crc_bits_lt (suc i) crc h = crc_bits_lt i (crc_bit crc) (crc_bit_lt crc h)

crc_byte_lt : (crc b : ℕ) → crc < 65536 → b < 256 → crc_byte crc b < 65536
unfolding crc_byte
crc_byte_lt crc b h k = crc_bits_lt 8 (bit_xor crc b) (bit_xor_lt 16 crc b h (omega arith))

crc_loop_lt : (xs : Bytes) (crc : ℕ) → crc < 65536 → All IsByte xs → crc_loop crc xs < 65536
unfolding crc_loop
crc_loop_lt [] crc h b = h
crc_loop_lt (x ∷ xs) crc h b = crc_loop_lt xs (crc_byte crc x) (crc_byte_lt crc x h b.0) b.1

calculate_crc_loop : (xs : Bytes) → All IsByte xs → calculate_crc xs ≡ crc_loop 0xffff xs
unfolding calculate_crc
calculate_crc_loop xs h =
    omega (arith, mask_65535 (crc_loop 0xffff xs), crc_loop_lt xs 0xffff (omega arith) h)

-- A checksum is a 16-bit number.
pub calculate_crc-lt : (xs : Bytes) → All IsByte xs → calculate_crc xs < 65536
calculate_crc-lt xs h =
    omega (arith, calculate_crc_loop xs h, crc_loop_lt xs 0xffff (omega arith) h)

low_byte_step : (h l : ℕ) → l < 256 → crc_byte (h * 256 + l) (255 - l) ≡ crc_byte (h * 256 + 0xff) 0
unfolding crc_byte
low_byte_step h l p = ap (crc_bits 8) same
  where
    same : bit_xor (h * 256 + l) (255 - l) ≡ bit_xor (h * 256 + 0xff) 0
    same = omega (
      arith,
      bit_xor_high 8 h l (255 - l) (omega arith) (omega arith),
      xor_complement l p,
      bit_xor-zero (h * 256 + 0xff),
    )

two_bytes :
    (h l : ℕ)
    → h < 256
    → l < 256
    → crc_byte (crc_byte (h * 256 + l) (255 - l)) (255 - h) ≡ crc_ok_residual
two_bytes h l p q =
    ap (λ c. crc_byte c (255 - h)) (low_byte_step h l q)
    ∙ (==_iff _ _).0 (all_below_sound 256 _ h residual_table p)

inverted_residual :
    (crc : ℕ)
    → crc < 65536
    → crc_loop crc ((0xffff - crc) % 256 ∷ (0xffff - crc) / 256 ∷ []) ≡ crc_ok_residual
unfolding crc_loop
inverted_residual crc h =
    ap (λ l. crc_byte (crc_byte crc l) ((0xffff - crc) / 256)) low
    ∙ ap (λ u. crc_byte (crc_byte crc (255 - crc % 256)) u) high
    ∙ ap (λ c. crc_byte (crc_byte c (255 - crc % 256)) (255 - crc / 256)) digits
    ∙ two_bytes (crc / 256) (crc % 256) (omega arith) (omega arith)
  where
    low : (0xffff - crc) % 256 ≡ 255 - crc % 256
    low = omega arith

    high : (0xffff - crc) / 256 ≡ 255 - crc / 256
    high = omega arith

    digits : crc ≡ crc / 256 * 256 + crc % 256
    digits = omega arith

-- Any bytes, followed by their inverted checksum with the low byte first, pass `check_crc`.
pub check_crc-inverted :
    (data_ : Bytes)
    → All IsByte data_
    → check_crc (
        data_ ++ ((0xffff - calculate_crc data_) % 256 ∷ (0xffff - calculate_crc data_) / 256 ∷ []))
      ≡ true
unfolding check_crc
check_crc-inverted data_ h =
    let crc : ℕ = calculate_crc data_ in
    let tail : Bytes = (0xffff - crc) % 256 ∷ (0xffff - crc) / 256 ∷ [] in
    (==_iff _ _).1 (
      calculate_crc_loop (data_ ++ tail) (All-append IsByte data_ tail h bytes)
      ∙ crc_loop-append data_ tail 0xffff
      ∙ ap (λ c. crc_loop c tail) (sym (calculate_crc_loop data_ h))
      ∙ inverted_residual crc (calculate_crc-lt data_ h))
  where
    bytes :
        All IsByte
          ((0xffff - calculate_crc data_) % 256 ∷ (0xffff - calculate_crc data_) / 256 ∷ [])
    bytes = (omega arith, (omega arith, tt))
