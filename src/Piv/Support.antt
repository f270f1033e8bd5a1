-- ===== src/Piv/Support.antt =====
-- yubikit/piv.py: `_do_check_key_support`.
use yubikey_manager.Prelude.{Bool, true, false, not, ◌&&◌, ◌||◌, Option, [], ◌∷◌}
use yubikey_manager.Core.Error.{Result, ok, not_supported, require, ◌>>◌}
use yubikey_manager.Core.Version.{Version, is_between, require_version}
use yubikey_manager.Piv.Types.{
  KeyType, rsa1024, rsa3072, rsa4096, eccp384, ed25519, x25519, is_rsa, PinPolicy, TouchPolicy,
  match_once, match_always, cached,
}

abbrev pub is_eccp384 : KeyType → Bool
is_eccp384 eccp384 = true
is_eccp384 _ = false

-- The key types that a FIPS device does not have
abbrev pub is_not_fips : KeyType → Bool
is_not_fips rsa1024 = true
is_not_fips x25519 = true
is_not_fips _ = false

abbrev pub is_new : KeyType → Bool
is_new rsa3072 = true
is_new rsa4096 = true
is_new ed25519 = true
is_new x25519 = true
is_new _ = false

abbrev pub is_default_pin : PinPolicy → Bool
is_default_pin PinPolicy.default = true
is_default_pin _ = false

abbrev pub is_never : PinPolicy → Bool
is_never PinPolicy.never = true
is_never _ = false

abbrev pub is_match : PinPolicy → Bool
is_match match_once = true
is_match match_always = true
is_match _ = false

abbrev pub is_default_touch : TouchPolicy → Bool
is_default_touch TouchPolicy.default = true
is_default_touch _ = false

abbrev pub is_cached : TouchPolicy → Bool
is_cached cached = true
is_cached _ = false

-- `if test: check`
abbrev pub only_if : Bool → Result (Unit {0}) → Result (Unit {0})
only_if true check = check
only_if false check = ok tt

-- `_do_check_key_support`
unfoldable pub check_key_support :
    Option Version → Version → KeyType → PinPolicy → TouchPolicy → Bool → Bool → Result (Unit {0})
check_key_support override version key_type pin_policy touch_policy generate fips_restrictions = do
  only_if (is_eccp384 key_type) (require_version override version (4 ∷ 0 ∷ 0 ∷ []))
  only_if (not (is_default_touch touch_policy) || not (is_default_pin pin_policy))
      (require_version override version (4 ∷ 0 ∷ 0 ∷ []))
  only_if (is_cached touch_policy) (require_version override version (4 ∷ 3 ∷ 0 ∷ []))
  require
      (not (is_between (4 ∷ 2 ∷ 0 ∷ []) version (4 ∷ 3 ∷ 5 ∷ []) && (generate && is_rsa key_type)))
      not_supported
  only_if (fips_restrictions || is_between (4 ∷ 4 ∷ 0 ∷ []) version (4 ∷ 5 ∷ 0 ∷ [])) (do
    require (not (is_not_fips key_type)) not_supported
    require (not (is_never pin_policy)) not_supported)
  only_if (is_new key_type) (require_version override version (5 ∷ 7 ∷ 0 ∷ []))
