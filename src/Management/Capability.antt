-- ===== src/Management/Capability.antt =====
-- yubikit/management.py: `CAPABILITY` and `FORM_FACTOR`.
use yubikey_manager.Prelude.{ℕ, ◌≡◌, arith, Bool, not, bit_and, bit_or, ◌==◌, if◌then◌else◌}

abbrev pub otp : ℕ
otp = 0x01

abbrev pub u2f : ℕ
u2f = 0x02

abbrev pub fido2 : ℕ
fido2 = 0x200

abbrev pub oath : ℕ
oath = 0x20

abbrev pub piv : ℕ
piv = 0x10

abbrev pub openpgp : ℕ
openpgp = 0x08

abbrev pub hsmauth : ℕ
hsmauth = 0x100

-- The flag is among the flags: `flags & flag` is not 0.
abbrev pub has : ℕ → ℕ → Bool
has flags flag = not (bit_and flags flag == 0)

abbrev pub add_if : Bool → ℕ → ℕ → ℕ
add_if on flags flag = if on then bit_or flags flag else flags

-- `CAPABILITY._from_fips`
unfoldable pub from_fips : ℕ → ℕ
from_fips fips =
    let c1 = add_if (has fips 0x01) 0 fido2 in
    let c2 = add_if (has fips 0x02) c1 piv in
    let c3 = add_if (has fips 0x04) c2 openpgp in
    let c4 = add_if (has fips 0x08) c3 oath in add_if (has fips 0x10) c4 hsmauth

-- `CAPABILITY.usb_interfaces`; the interfaces are OTP 1, FIDO 2 and CCID 4.
unfoldable pub usb_interfaces : ℕ → ℕ
usb_interfaces caps =
    let i1 = add_if (has caps otp) 0 1 in
    let i2 = add_if (has caps (bit_or u2f fido2)) i1 2 in
    add_if
      (has caps (bit_or 0x4 (bit_or 0x400 (bit_or oath (bit_or piv (bit_or openpgp hsmauth)))))) i2
      4

pub data FormFactor : Type 0 where
  unknown usb_a_keychain usb_a_nano usb_c_keychain usb_c_nano usb_c_lightning usb_a_bio usb_c_bio :
      FormFactor

-- `FORM_FACTOR.from_code`
unfoldable pub form_factor : ℕ → FormFactor
form_factor code =
    let ff = bit_and code 0xf in
    if ff == 1
    then usb_a_keychain
    else if ff == 2
    then usb_a_nano
    else if ff == 3
    then usb_c_keychain
    else if ff == 4
    then usb_c_nano
    else if ff == 5
    then usb_c_lightning
    else if ff == 6
    then usb_a_bio
    else if ff == 7
    then usb_c_bio
    else unknown

-- The capabilities that `from_fips` makes for the five bits.
abbrev made : Bool → Bool → Bool → Bool → Bool → ℕ
made a b c d e =
    add_if e (add_if d (add_if c (add_if b (add_if a 0 fido2) piv) openpgp) oath) hsmauth

made_lem :
    (a b c d e : Bool)
    → (has (made a b c d e) fido2 ≡ a)
      × (has (made a b c d e) piv ≡ b)
      × (has (made a b c d e) openpgp ≡ c)
      × (has (made a b c d e) oath ≡ d)
      × (has (made a b c d e) hsmauth ≡ e)
made_lem a b c d e = ground arith

-- A FIPS field says the same of each of the five applications as the capabilities that
-- `_from_fips` makes from it.
pub has-from_fips :
    (fips : ℕ)
    → (has (from_fips fips) fido2 ≡ has fips 0x01)
      × (has (from_fips fips) piv ≡ has fips 0x02)
      × (has (from_fips fips) openpgp ≡ has fips 0x04)
      × (has (from_fips fips) oath ≡ has fips 0x08)
      × (has (from_fips fips) hsmauth ≡ has fips 0x10)
unfolding from_fips
has-from_fips fips =
    made_lem (has fips 0x01) (has fips 0x02) (has fips 0x04) (has fips 0x08) (has fips 0x10)
