-- ===== src/Oath/Credential.antt =====
-- yubikit/oath.py: the types of credentials, and the ids that a YubiKey keeps them under.
pub mod Ids
use yubikey_manager.Prelude.{
  ℕ, ◌+◌, ◌*◌, Bool, true, false, not, ◌&&◌, Option, none, some, List, [], ◌∷◌, ◌++◌, ◌==◌,
  if◌then◌else◌, length,
}
use yubikey_manager.Core.Error.{Result, ok, err, value_error, ◌>>=◌}
use yubikey_manager.Core.Bytes.{Bytes}
use yubikey_manager.Core.Text.{Text, encode, decode, show}

pub data HashAlgorithm : Type 0 where
  sha1 sha256 sha512 : HashAlgorithm

pub data OathType : Type 0 where
  hotp totp : OathType

unfoldable pub algorithm_code : HashAlgorithm → ℕ
algorithm_code sha1 = 0x01
algorithm_code sha256 = 0x02
algorithm_code sha512 = 0x03

unfoldable pub type_code : OathType → ℕ
type_code hotp = 0x10
type_code totp = 0x20

-- `OATH_TYPE(x)`
unfoldable pub oath_type : ℕ → Result OathType
oath_type x = if x == 0x10 then ok hotp else if x == 0x20 then ok totp else err value_error

-- `oath_type == OATH_TYPE.TOTP`
abbrev pub is_totp : OathType → Bool
is_totp hotp = false
is_totp totp = true

abbrev pub default_period : ℕ
default_period = 30

pub record CredentialData : Type 0 where
  pub name : Text
  pub oath_type : OathType
  pub hash_algorithm : HashAlgorithm
  pub secret : Bytes
  pub digits : ℕ
  pub period : ℕ
  pub counter : ℕ
  pub issuer : Option Text

pub record Credential : Type 0 where
  pub device_id : Text
  pub id : Bytes
  pub issuer : Option Text
  pub name : Text
  pub oath_type : OathType
  pub period : ℕ
  pub touch_required : Option Bool

-- `"%d/" % period`, for a TOTP credential with a period of its own
unfoldable pub period_prefix : OathType → ℕ → Text
period_prefix type period =
    if is_totp type && not (period == default_period) then show period ++ (47 ∷ []) else []

-- `if issuer: issuer + ":"`
unfoldable pub issuer_prefix : Option Text → Text
issuer_prefix none = []
issuer_prefix (some issuer) = if length issuer == 0 then [] else issuer ++ (58 ∷ [])

-- `_format_cred_id`
unfoldable pub format_cred_id : Option Text → Text → OathType → ℕ → Result Bytes
format_cred_id issuer name type period =
    encode (period_prefix type period ++ (issuer_prefix issuer ++ name))

-- `get_id`
unfoldable pub get_id : CredentialData → Result Bytes
get_id d = format_cred_id d.issuer d.name d.oath_type d.period

-- The characters at the start of a text that pass a test, as many as there are, and the rest.
unfoldable pub span : (ℕ → Bool) → Text → Text × Text
span test [] = ([], [])
span test (c ∷ cs) =
    let (run, rest) = span test cs in if test c then (c ∷ run, rest) else ([], c ∷ cs)

-- A run that is not empty and ends before the character `close`, and what follows that. As `close`
-- does not pass the test, a shorter run never helps the pattern.
unfoldable pub closed : (ℕ → Bool) → ℕ → Text → Option (Text × Text)
closed test close s = let (run, rest) = span test s in closed_by run rest
  where
    closed_by : Text → Text → Option (Text × Text)
    closed_by [] rest = none
    closed_by (c ∷ run) [] = none
    closed_by (c ∷ run) (d ∷ rest) = if d == close then some (c ∷ run, rest) else none

abbrev pub no_colon : ℕ → Bool
no_colon c = not (c == 58)

abbrev pub no_newline : ℕ → Bool
no_newline c = not (c == 10)

-- `$`, which also accepts the place before a last newline
abbrev pub at_end : Text → Bool
at_end [] = true
at_end (c ∷ []) = c == 10
at_end (c ∷ d ∷ s) = false

-- `(.+)$`
unfoldable pub match_name : Text → Option Text
match_name s =
    let (run, rest) = span no_newline s in
    if not (length run == 0) && at_end rest then some run else none

abbrev pub with_group {ℓ} : {A B : Type ℓ} → A → Option B → Option (A × B)
with_group a none = none
with_group a (some b) = some (a, b)

abbrev pub or_else {ℓ} : {A : Type ℓ} → Option A → Option A → Option A
or_else none b = b
or_else (some a) b = some a

-- `(([^:]+):)?(.+)$`: without the group where there is none, or where the rest fails after it.
unfoldable pub match_issuer : Text → Option (Option Text × Text)
match_issuer s =
    let plain = with_group none (match_name s) in
    elim (closed no_colon 58 s) [
      | none ↦ plain
      | some (issuer, rest) ↦ or_else (with_group (some issuer) (match_name rest)) plain
    ]

-- The decimal value that a character has for `\d` and for `int`, where it has one.
module _ (decimal : ℕ → Option ℕ) where
  abbrev pub is_decimal : ℕ → Bool
  is_decimal c = elim (decimal c) [ none ↦ false | some n ↦ true ]

  -- `int(s)`, for a text that matches `\d+`
  unfoldable pub int_from : ℕ → Text → ℕ
  int_from n [] = n
  int_from n (c ∷ cs) = int_from (elim (decimal c) [ none ↦ n | some d ↦ n * 10 + d ]) cs

  -- `TOTP_ID_PATTERN.match`: the groups 2, 4 and 5
  unfoldable pub match_id : Text → Option (Option Text × (Option Text × Text))
  match_id s =
      let plain = with_group none (match_issuer s) in
      elim (closed is_decimal 47 s) [
        | none ↦ plain
        | some (period, rest) ↦ or_else (with_group (some period) (match_issuer rest)) plain
      ]

  abbrev pub period_of : Option Text → ℕ
  period_of none = default_period
  period_of (some s) = int_from 0 s

  -- A decoded id of a TOTP credential, and one of a HOTP credential: a colon that is not the first
  -- character ends the issuer.
  unfoldable pub parse_totp : Text → Option Text × Text × ℕ
  parse_totp s = elim (match_id s) [
    | none ↦ (none, s, default_period)
    | some (period, (issuer, name)) ↦ (issuer, name, period_of period)
  ]

  unfoldable pub parse_hotp : Text → Option Text × Text × ℕ
  parse_hotp s = elim (closed no_colon 58 s) [
    | none ↦ (none, s, 0)
    | some (issuer, name) ↦ (some issuer, name, 0)
  ]

  -- `_parse_cred_id`
  unfoldable pub parse_cred_id : Bytes → OathType → Result (Option Text × Text × ℕ)
  parse_cred_id cred_id type = do
    s ← decode cred_id
    if is_totp type then ok (parse_totp s) else ok (parse_hotp s)
