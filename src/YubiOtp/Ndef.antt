-- ===== src/YubiOtp/Ndef.antt =====
-- yubikit/yubiotp.py: `NDEF_URL_PREFIXES` and `_build_ndef_config`. A string is its UTF-8 bytes.
pub mod Reading
use yubikey_manager.Prelude.{
  ℕ, ◌+◌, ◌-◌, Bool, true, false, not, ◌&&◌, Option, none, some, List, [], ◌∷◌, ◌++◌, ltb, ◌==◌,
  if◌then◌else◌, length, drop,
}
use yubikey_manager.Core.Error.{Result, ok, err, value_error, require, ◌>>=◌, ◌>>◌}
use yubikey_manager.Core.Bytes.{Bytes, ljust, pack_all_b}

abbrev pub ndef_data_size : ℕ
ndef_data_size = 54

pub data NdefType : Type 0 where
  text uri : NdefType

abbrev pub type_value : NdefType → ℕ
type_value text = 84
type_value uri = 85

abbrev pub default_uri : Bytes
default_uri =
    104 ∷ 116 ∷ 116 ∷ 112 ∷ 115 ∷ 58 ∷ 47 ∷ 47 ∷ 109 ∷ 121 ∷ 46 ∷ 121 ∷ 117 ∷ 98 ∷ 105 ∷ 99 ∷ 111
    ∷ 46 ∷ 99 ∷ 111 ∷ 109 ∷ 47 ∷ 121 ∷ 107 ∷ 47 ∷ 35 ∷ []

abbrev pub url_prefixes : List Bytes
url_prefixes =
    (104 ∷ 116 ∷ 116 ∷ 112 ∷ 58 ∷ 47 ∷ 47 ∷ 119 ∷ 119 ∷ 119 ∷ 46 ∷ [])
    ∷ (104 ∷ 116 ∷ 116 ∷ 112 ∷ 115 ∷ 58 ∷ 47 ∷ 47 ∷ 119 ∷ 119 ∷ 119 ∷ 46 ∷ [])
    ∷ (104 ∷ 116 ∷ 116 ∷ 112 ∷ 58 ∷ 47 ∷ 47 ∷ [])
    ∷ (104 ∷ 116 ∷ 116 ∷ 112 ∷ 115 ∷ 58 ∷ 47 ∷ 47 ∷ [])
    ∷ (116 ∷ 101 ∷ 108 ∷ 58 ∷ [])
    ∷ (109 ∷ 97 ∷ 105 ∷ 108 ∷ 116 ∷ 111 ∷ 58 ∷ [])
    ∷ (102 ∷ 116 ∷ 112 ∷ 58 ∷ 47 ∷ 47 ∷ 97 ∷ 110 ∷ 111 ∷ 110 ∷ 121 ∷ 109 ∷ 111 ∷ 117 ∷ 115 ∷ 58 ∷ 97
        ∷ 110 ∷ 111 ∷ 110 ∷ 121 ∷ 109 ∷ 111 ∷ 117 ∷ 115 ∷ 64 ∷ [])
    ∷ (102 ∷ 116 ∷ 112 ∷ 58 ∷ 47 ∷ 47 ∷ 102 ∷ 116 ∷ 112 ∷ 46 ∷ [])
    ∷ (102 ∷ 116 ∷ 112 ∷ 115 ∷ 58 ∷ 47 ∷ 47 ∷ [])
    ∷ (115 ∷ 102 ∷ 116 ∷ 112 ∷ 58 ∷ 47 ∷ 47 ∷ [])
    ∷ (115 ∷ 109 ∷ 98 ∷ 58 ∷ 47 ∷ 47 ∷ [])
    ∷ (110 ∷ 102 ∷ 115 ∷ 58 ∷ 47 ∷ 47 ∷ [])
    ∷ (102 ∷ 116 ∷ 112 ∷ 58 ∷ 47 ∷ 47 ∷ [])
    ∷ (100 ∷ 97 ∷ 118 ∷ 58 ∷ 47 ∷ 47 ∷ [])
    ∷ (110 ∷ 101 ∷ 119 ∷ 115 ∷ 58 ∷ [])
    ∷ (116 ∷ 101 ∷ 108 ∷ 110 ∷ 101 ∷ 116 ∷ 58 ∷ 47 ∷ 47 ∷ [])
    ∷ (105 ∷ 109 ∷ 97 ∷ 112 ∷ 58 ∷ [])
    ∷ (114 ∷ 116 ∷ 115 ∷ 112 ∷ 58 ∷ 47 ∷ 47 ∷ [])
    ∷ (117 ∷ 114 ∷ 110 ∷ 58 ∷ [])
    ∷ (112 ∷ 111 ∷ 112 ∷ 58 ∷ [])
    ∷ (115 ∷ 105 ∷ 112 ∷ 58 ∷ [])
    ∷ (115 ∷ 105 ∷ 112 ∷ 115 ∷ 58 ∷ [])
    ∷ (116 ∷ 102 ∷ 116 ∷ 112 ∷ 58 ∷ [])
    ∷ (98 ∷ 116 ∷ 115 ∷ 112 ∷ 112 ∷ 58 ∷ 47 ∷ 47 ∷ [])
    ∷ (98 ∷ 116 ∷ 108 ∷ 50 ∷ 99 ∷ 97 ∷ 112 ∷ 58 ∷ 47 ∷ 47 ∷ [])
    ∷ (98 ∷ 116 ∷ 103 ∷ 111 ∷ 101 ∷ 112 ∷ 58 ∷ 47 ∷ 47 ∷ [])
    ∷ (116 ∷ 99 ∷ 112 ∷ 111 ∷ 98 ∷ 101 ∷ 120 ∷ 58 ∷ 47 ∷ 47 ∷ [])
    ∷ (105 ∷ 114 ∷ 100 ∷ 97 ∷ 111 ∷ 98 ∷ 101 ∷ 120 ∷ 58 ∷ 47 ∷ 47 ∷ [])
    ∷ (102 ∷ 105 ∷ 108 ∷ 101 ∷ 58 ∷ 47 ∷ 47 ∷ [])
    ∷ (117 ∷ 114 ∷ 110 ∷ 58 ∷ 101 ∷ 112 ∷ 99 ∷ 58 ∷ 105 ∷ 100 ∷ 58 ∷ [])
    ∷ (117 ∷ 114 ∷ 110 ∷ 58 ∷ 101 ∷ 112 ∷ 99 ∷ 58 ∷ 116 ∷ 97 ∷ 103 ∷ 58 ∷ [])
    ∷ (117 ∷ 114 ∷ 110 ∷ 58 ∷ 101 ∷ 112 ∷ 99 ∷ 58 ∷ 112 ∷ 97 ∷ 116 ∷ 58 ∷ [])
    ∷ (117 ∷ 114 ∷ 110 ∷ 58 ∷ 101 ∷ 112 ∷ 99 ∷ 58 ∷ 114 ∷ 97 ∷ 119 ∷ 58 ∷ [])
    ∷ (117 ∷ 114 ∷ 110 ∷ 58 ∷ 101 ∷ 112 ∷ 99 ∷ 58 ∷ [])
    ∷ (117 ∷ 114 ∷ 110 ∷ 58 ∷ 110 ∷ 102 ∷ 99 ∷ 58 ∷ [])
    ∷ []

-- `value.startswith(prefix)`
unfoldable pub starts_with : Bytes → Bytes → Bool
starts_with [] value = true
starts_with (p ∷ ps) [] = false
starts_with (p ∷ ps) (b ∷ bs) = p == b && starts_with ps bs

-- The loop over the prefixes from number `i` on: the id code and the rest of the value.
unfoldable pub find_prefix : ℕ → List Bytes → Bytes → ℕ × Bytes
find_prefix i [] value = (0, value)
find_prefix i (p ∷ ps) value =
    let other = find_prefix (i + 1) ps value in
    if starts_with p value then (i + 1, drop (length p) value) else other

-- The data of a record, before it is padded.
unfoldable pub ndef_data : Option Bytes → NdefType → Bytes
ndef_data none uri = let found = find_prefix 0 url_prefixes default_uri in found.0 ∷ found.1
ndef_data (some value) uri = let found = find_prefix 0 url_prefixes value in found.0 ∷ found.1
ndef_data none text = 2 ∷ 101 ∷ 110 ∷ []
ndef_data (some value) text = 2 ∷ 101 ∷ 110 ∷ value

unfoldable pub build_ndef_config : Option Bytes → NdefType → Result Bytes
build_ndef_config value ndef_type = do
  let data_ = ndef_data value ndef_type
  require (not (ltb ndef_data_size (length data_))) value_error
  head ← pack_all_b (length data_ ∷ type_value ndef_type ∷ [])
  ok (head ++ ljust ndef_data_size 0 data_)
