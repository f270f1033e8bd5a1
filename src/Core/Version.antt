-- ===== src/Core/Version.antt =====
-- yubikit/core/__init__.py: `Version`, the order of tuples, and `require_version`.
use yubikey_manager.Prelude.{
  ℕ, ◌+◌, ◌*◌, ◌<◌, ◌≡◌, Bool, true, false, ◌&&◌, ◌||◌, not, Option, none, some, List, [], ◌∷◌, ltb,
  ◌==◌, if◌then◌else◌, arith,
}
use yubikey_manager.Core.Error.{Result, ok, err, type_error, not_supported}
use yubikey_manager.Core.Bytes.{Bytes}

pub record Version : Type 0 where
  pub major : ℕ
  pub minor : ℕ
  pub patch : ℕ

abbrev pub version : ℕ → ℕ → ℕ → Version
version a b c = record { major = a; minor = b; patch = c }

abbrev pub to_tuple : Version → List ℕ
to_tuple v = v.major ∷ v.minor ∷ v.patch ∷ []

-- `a < b` on tuples of integers
unfoldable pub tuple_lt : List ℕ → List ℕ → Bool
tuple_lt xs [] = false
tuple_lt [] (y ∷ ys) = true
tuple_lt (x ∷ xs) (y ∷ ys) = ltb x y || (x == y && tuple_lt xs ys)

-- `self < other`, and `self >= other`
abbrev pub is_before : Version → List ℕ → Bool
is_before v t = tuple_lt (to_tuple v) t

abbrev pub is_since : Version → List ℕ → Bool
is_since v t = not (is_before v t)

-- `low <= self < high`
abbrev pub is_between : List ℕ → Version → List ℕ → Bool
is_between low v high = is_since v low && is_before v high

-- `__bool__`
unfoldable pub is_set : Version → Bool
is_set v = not (v.major == 0) || (not (v.minor == 0) || not (v.patch == 0))

-- `from_bytes`: `cls(*data)` wants three values.
unfoldable pub from_bytes : Bytes → Result Version
from_bytes (a ∷ b ∷ c ∷ []) = ok (version a b c)
from_bytes _ = err type_error

-- The version that is compared: a development device may have it overridden, `override` being
-- the global `_override_version._version`.
unfoldable pub effective : Option Version → Version → Version
effective none v = v
effective (some o) v = if v.major == 0 && is_set o then o else v

unfoldable pub require_version : Option Version → Version → List ℕ → Result (Unit {0})
unfolding effective
require_version override v min_version =
    if is_before (effective override v) min_version then err not_supported else ok tt

-- The number that has a version's parts as its digits.
abbrev pub ordinal : Version → ℕ
ordinal v = (v.major * 256 + v.minor) * 256 + v.patch

-- Versions are ordered as the numbers that have their parts as digits to base 256, where the
-- minor and the patch parts are bytes.
pub is_before-ordinal :
    (v w : Version)
    → v.minor < 256
    → v.patch < 256
    → w.minor < 256
    → w.patch < 256
    → is_before v (to_tuple w) ≡ ltb (ordinal v) (ordinal w)
unfolding tuple_lt
is_before-ordinal v w a b c d = ground arith
