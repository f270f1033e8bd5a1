-- ===== src/Management/Tests.antt =====
-- The theorems on yubikit/management.py at concrete inputs and backends.
use yubikey_manager.Prelude.{
  ℕ, zero, suc, ◌≡◌, ◌≢◌, ap, sym, refl, arith, true, false, none, some, [], ◌∷◌, length, replicate,
  All, ltb, if◌then◌else◌,
}
use yubikey_manager.Core.Error.{ok, err, not_supported}
use yubikey_manager.Core.Bytes.{Bytes, int2bytes, int2bytes_loop}
use yubikey_manager.Core.Dict.{get, update, insert}
use yubikey_manager.Core.Version.{version, tuple_lt, require_version, effective, is_since}
use yubikey_manager.Core.Tlv.{parse_dict, pack, length_bytes}
use yubikey_manager.Core.Tlv.Fields.{IsField, pack_all, small-IsTag}
use yubikey_manager.Management.Mode.{new_mode, mode_from_code, index_from, mode_from_code-new_mode}
use yubikey_manager.Management.Config.{DeviceConfig, get_bytes}
use yubikey_manager.Management.Config.Written.{settings, get_bytes_lem}
use yubikey_manager.Management.Info.{parse_tlvs}
use yubikey_manager.Management.Session.{Backend, read_device_info, set_mode}
use yubikey_manager.Management.Session.Pages.{
  Fields, frame, marker, complete, Pages, merge, read_device_info-Pages,
}
use yubikey_manager.Management.Session.Writing.{set_mode-legacy}

mode_5 : new_mode 6 ≡ ok (record { code = 5; interfaces = 6 })
unfolding new_mode index_from
mode_5 = refl

mode_from_code-new_mode_example : mode_from_code 0x85 ≡ ok (record { code = 5; interfaces = 6 })
mode_from_code-new_mode_example =
    mode_from_code-new_mode 6 0x85 (record { code = 5; interfaces = 6 }) mode_5 refl

abbrev some_config : DeviceConfig
some_config = record {
  enabled_capabilities = record { usb = some 0x23f; nfc = none };
  auto_eject_timeout = none;
  challenge_response_timeout = some 15;
  device_flags = none;
  nfc_restricted = some true;
}

settings-IsField : All IsField (settings some_config true (some (replicate 16 1)) none)
unfolding settings int2bytes int2bytes_loop
settings-IsField = (
  ((omega arith, omega arith), omega arith),
  (
    ((omega arith, omega arith), omega arith),
    (
      ((omega arith, omega arith), omega arith),
      (((omega arith, omega arith), omega arith), (((omega arith, omega arith), omega arith), tt)),
    ),
  ),
)

get_bytes_example :
    (get_bytes some_config true (some (replicate 16 1)) none ≡ (
      if ltb 0xff (length (pack_all (settings some_config true (some (replicate 16 1)) none)))
      then err not_supported
      else ok (
          length (pack_all (settings some_config true (some (replicate 16 1)) none))
          ∷ pack_all (settings some_config true (some (replicate 16 1)) none))))
    × (parse_dict (pack_all (settings some_config true (some (replicate 16 1)) none))
        ≡ ok (update [] (settings some_config true (some (replicate 16 1)) none)))
get_bytes_example = get_bytes_lem some_config true (some (replicate 16 1)) none settings-IsField

-- Two pages: the first announces the second.
abbrev first_page : Bytes
first_page = 6 ∷ 0x01 ∷ 0x01 ∷ 0x3f ∷ 0x10 ∷ 0x01 ∷ 0x01 ∷ []

abbrev second_page : Bytes
second_page = 4 ∷ 0x02 ∷ 0x02 ∷ 1 ∷ 2 ∷ []

abbrev page : ℕ → Bytes
page zero = first_page
page (suc n) = second_page

abbrev paged : Backend Unit
paged = record {
  version = version 4 2 7;
  set_mode = λ b d. (ok tt, d);
  read_config = λ n d. (ok (page n), d);
  write_config = λ b d. (ok tt, d);
}

abbrev first_fields : Fields
first_fields = (0x01, 0x3f ∷ []) ∷ (0x10, 1 ∷ []) ∷ []

abbrev second_fields : Fields
second_fields = (0x02, 1 ∷ 2 ∷ []) ∷ []

first_framed : frame first_fields ≡ first_page
unfolding pack_all pack length_bytes int2bytes int2bytes_loop
first_framed = refl

second_framed : frame second_fields ≡ second_page
unfolding pack_all pack length_bytes int2bytes int2bytes_loop
second_framed = refl

first_marked : marker first_fields ≡ some (1 ∷ [])
unfolding get update insert
first_marked = refl

second_unmarked : marker second_fields ≢ some (1 ∷ [])
unfolding get update insert
second_unmarked e = cc

two-Pages : Pages paged 0 tt (first_fields ∷ second_fields ∷ []) complete tt
two-Pages =
    Pages.more 0 tt tt tt first_fields (second_fields ∷ []) complete
      (ap (λ b. (ok b, tt)) (sym first_framed))
      (
        (small-IsTag 0x01 (omega arith), omega arith),
        ((small-IsTag 0x10 (omega arith), omega arith), tt),
      )
      first_marked
      (Pages.last 1 tt tt second_fields (ap (λ b. (ok b, tt)) (sym second_framed))
        ((small-IsTag 0x02 (omega arith), omega arith), tt) second_unmarked)

new_enough : require_version none (version 4 2 7) (4 ∷ 1 ∷ 0 ∷ []) ≡ ok tt
unfolding require_version effective tuple_lt
new_enough = refl

read_device_info-Pages_example :
    read_device_info none paged 3 tt
    ≡ (parse_tlvs (merge [] (first_fields ∷ second_fields ∷ [])) (version 4 2 7), tt)
read_device_info-Pages_example =
    read_device_info-Pages none paged 3 tt tt (first_fields ∷ second_fields ∷ []) complete
      new_enough two-Pages (omega arith)

before_5 : is_since (version 4 2 7) (5 ∷ 0 ∷ 0 ∷ []) ≡ false
unfolding tuple_lt
before_5 = refl

set_mode-legacy_example :
    set_mode none paged 0 (record { code = 1; interfaces = 4 }) 15 (some 300) tt ≡ (ok tt, tt)
set_mode-legacy_example =
    set_mode-legacy none paged 0 1 4 15 (some 300) tt before_5 (omega arith) (omega arith)
      (omega arith)
