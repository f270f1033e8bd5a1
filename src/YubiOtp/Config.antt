-- ===== src/YubiOtp/Config.antt =====
-- yubikit/yubiotp.py: `_build_config`, `_build_update` and `_shorten_hmac_key`.
pub mod Checked
use yubikey_manager.Prelude.{
  ℕ, ◌+◌, ◌-◌, Bool, not, Option, none, some, List, [], ◌∷◌, ◌++◌, ltb, ◌==◌, if◌then◌else◌, length,
  replicate,
}
use yubikey_manager.Core.Error.{Result, ok, err, value_error, not_supported, require, ◌>>=◌, ◌>>◌}
use yubikey_manager.Core.Bytes.{Bytes, ljust, pack_le16}
use yubikey_manager.Core.Bytes.{pack_all_b}
use yubikey_manager.Otp.Crc.{calculate_crc}
use yubikey_manager.YubiOtp.Flags.{and_not, tkt_update_mask, cfg_update_mask, ext_update_mask}

abbrev pub fixed_size : ℕ
fixed_size = 16

abbrev pub uid_size : ℕ
uid_size = 6

abbrev pub key_size : ℕ
key_size = 16

abbrev pub acc_code_size : ℕ
acc_code_size = 6

abbrev pub config_size : ℕ
config_size = 52

abbrev pub hmac_key_size : ℕ
hmac_key_size = 20

abbrev pub sha1_block_size : ℕ
sha1_block_size = 64

abbrev pub scan_codes_size : ℕ
scan_codes_size = 38

-- `acc_code or b"\0" * ACC_CODE_SIZE`: an empty code counts as none.
abbrev pub acc_bytes : Option Bytes → Bytes
acc_bytes none = replicate acc_code_size 0
acc_bytes (some c) = if length c == 0 then replicate acc_code_size 0 else c

-- `buf`, and the checksum behind it
unfoldable pub build_config : Bytes → Bytes → Bytes → ℕ → ℕ → ℕ → Option Bytes → Result Bytes
build_config fixed uid key ext tkt cfg acc_code = do
  flags ← pack_all_b (length fixed ∷ ext ∷ tkt ∷ cfg ∷ [])
  let buf =
      ljust fixed_size 0 fixed ++ (uid ++ (key ++ (acc_bytes acc_code ++ (flags ++ (0 ∷ 0 ∷ [])))))
  crc ← pack_le16 (0xffff - calculate_crc buf)
  ok (buf ++ crc)

unfoldable pub build_update : ℕ → ℕ → ℕ → Option Bytes → Result Bytes
build_update ext tkt cfg acc_code = do
  require (and_not ext ext_update_mask == 0) value_error
  require (and_not tkt tkt_update_mask == 0) value_error
  require (and_not cfg cfg_update_mask == 0) value_error
  build_config [] (replicate uid_size 0) (replicate key_size 0) ext tkt cfg acc_code

-- The hash is `sha1(key).digest()`.
unfoldable pub shorten_hmac_key : (Bytes → Bytes) → Bytes → Result Bytes
shorten_hmac_key sha1 key =
    if ltb sha1_block_size (length key)
    then ok (sha1 key)
    else if ltb hmac_key_size (length key)
    then err not_supported
    else ok key
