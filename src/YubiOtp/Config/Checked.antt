-- ===== src/YubiOtp/Config/Checked.antt =====
-- A slot configuration as it is written: 52 bytes that pass the device's checksum.
use yubikey_manager.Prelude.{
  ℕ, ◌-◌, ◌/◌, ◌%◌, ◌<◌, ◌≤◌, ◌≡◌, Bool, true, false, Option, none, some, [], ◌∷◌, ◌++◌, arith,
  ◌==◌, length, replicate, length-append, length-replicate, All, All-append, All-replicate,
  if◌then◌else◌,
}
use yubikey_manager.Core.Error.{ok}
use yubikey_manager.Core.Bytes.{Bytes, IsByte, ljust}
use yubikey_manager.Core.Bytes.Packing.{pack_all_b_bytes, pack_le16_pair}
use yubikey_manager.Otp.Crc.{calculate_crc, check_crc}
use yubikey_manager.Otp.Crc.Residual.{check_crc-inverted}
use yubikey_manager.YubiOtp.Config.{build_config, acc_bytes}

-- An access code is none, empty, or six bytes.
abbrev pub IsAccCode : Option Bytes → Type 0
IsAccCode none = Unit
IsAccCode (some c) = All IsByte c × (length (acc_bytes (some c)) ≡ 6)

-- The parts of a configuration have their sizes, and are bytes.
pub record IsConfig (fixed uid key : Bytes) (ext tkt cfg : ℕ) : Type 0 where
  pub fixed_bytes : All IsByte fixed
  pub fixed_fits : length fixed ≤ 16
  pub uid_bytes : All IsByte uid
  pub uid_fits : length uid ≡ 6
  pub key_bytes : All IsByte key
  pub key_fits : length key ≡ 16
  pub ext_byte : ext < 256
  pub tkt_byte : tkt < 256
  pub cfg_byte : cfg < 256

-- What the device takes for a configuration.
pub record IsWritable (b : Bytes) : Type 0 where
  pub size : length b ≡ 52
  pub bytes : All IsByte b
  pub checked : check_crc b ≡ true

acc_bytes_fit :
    (acc : Option Bytes) → IsAccCode acc → All IsByte (acc_bytes acc) × (length (acc_bytes acc) ≡ 6)
acc_bytes_fit none h = (All-replicate IsByte 6 0 (omega arith), length-replicate {A = ℕ} 6 0)
acc_bytes_fit (some c) h = (bytes (length c == 0), h.1)
  where
    bytes : (b : Bool) → All IsByte (if b then replicate 6 0 else c)
    bytes true = All-replicate IsByte 6 0 (omega arith)
    bytes false = h.0

pub length-ljust : (n b : ℕ) (xs : Bytes) → length xs ≤ n → length (ljust n b xs) ≡ n
length-ljust n b xs h = omega (
  arith,
  length-append xs (replicate (n - length xs) b),
  length-replicate {A = ℕ} (n - length xs) b,
)

pub All-ljust : (n : ℕ) (xs : Bytes) → All IsByte xs → All IsByte (ljust n 0 xs)
All-ljust n xs h =
    All-append IsByte xs (replicate (n - length xs) 0) h
      (All-replicate IsByte (n - length xs) 0 (omega arith))

module _ (fixed uid key : Bytes) (ext tkt cfg : ℕ) (acc : Option Bytes) where
  abbrev counts : Bytes
  counts = length fixed ∷ ext ∷ tkt ∷ cfg ∷ []

  abbrev body : Bytes
  body = ljust 16 0 fixed ++ (uid ++ (key ++ (acc_bytes acc ++ (counts ++ (0 ∷ 0 ∷ [])))))

  module _ (h : IsConfig fixed uid key ext tkt cfg) (k : IsAccCode acc) where
    body_size : length body ≡ 50
    body_size = omega (
      arith,
      length-ljust 16 0 fixed h.fixed_fits,
      length-append (ljust 16 0 fixed)
          (uid ++ (key ++ (acc_bytes acc ++ (counts ++ (0 ∷ 0 ∷ []))))),
      length-append uid (key ++ (acc_bytes acc ++ (counts ++ (0 ∷ 0 ∷ [])))),
      length-append key (acc_bytes acc ++ (counts ++ (0 ∷ 0 ∷ []))),
      length-append (acc_bytes acc) (counts ++ (0 ∷ 0 ∷ [])),
      (acc_bytes_fit acc k).1,
      h.uid_fits,
      h.key_fits,
    )

    counts_bytes : All IsByte counts
    counts_bytes = (omega (arith, h.fixed_fits), (h.ext_byte, (h.tkt_byte, (h.cfg_byte, tt))))

    body_bytes : All IsByte body
    body_bytes = All-append IsByte (ljust 16 0 fixed) _ (All-ljust 16 fixed h.fixed_bytes) (
        All-append IsByte uid _ h.uid_bytes (
          All-append IsByte key _ h.key_bytes (
            All-append IsByte (acc_bytes acc) _ ((acc_bytes_fit acc k).0) (
              All-append IsByte counts (0 ∷ 0 ∷ []) counts_bytes
                (omega arith, (omega arith, tt))))))

    -- Parts of the right sizes make a configuration of 52 bytes that passes `check_crc`.
    pub build_config-IsWritable :
        (b : Bytes) × (build_config fixed uid key ext tkt cfg acc ≡ ok b) × IsWritable b
    unfolding build_config
    build_config-IsWritable =
        let crc : ℕ = 0xffff - calculate_crc body in
        let tail : Bytes = crc % 256 ∷ crc / 256 ∷ [] in
        (
          body ++ tail,
          rw (pack_all_b_bytes counts counts_bytes) (rw (pack_le16_pair crc (omega arith))),
          record {
            size = omega (arith, length-append body tail, body_size);
            bytes = All-append IsByte body tail body_bytes (omega arith, (omega arith, tt));
            checked = check_crc-inverted body body_bytes;
          },
        )
