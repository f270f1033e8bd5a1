-- ===== src/Piv/Types.antt =====
-- yubikit/piv.py: key types, management key types, slots, object ids and policies.
pub mod Codes
use yubikey_manager.Prelude.{
  ℕ, ◌/◌, Bool, true, false, Option, none, some, List, [], ◌∷◌, ◌==◌, if◌then◌else◌,
}
use yubikey_manager.Core.Error.{Result, ok, err, value_error}

pub data KeyType : Type 0 where
  rsa1024 rsa2048 rsa3072 rsa4096 eccp256 eccp384 ed25519 x25519 : KeyType

unfoldable pub key_type_code : KeyType → ℕ
key_type_code rsa1024 = 0x06
key_type_code rsa2048 = 0x07
key_type_code rsa3072 = 0x05
key_type_code rsa4096 = 0x16
key_type_code eccp256 = 0x11
key_type_code eccp384 = 0x14
key_type_code ed25519 = 0xe0
key_type_code x25519 = 0xe1

-- `algorithm == ALGORITHM.RSA`
abbrev pub is_rsa : KeyType → Bool
is_rsa rsa1024 = true
is_rsa rsa2048 = true
is_rsa rsa3072 = true
is_rsa rsa4096 = true
is_rsa eccp256 = false
is_rsa eccp384 = false
is_rsa ed25519 = false
is_rsa x25519 = false

unfoldable pub bit_len : KeyType → ℕ
bit_len rsa1024 = 1024
bit_len rsa2048 = 2048
bit_len rsa3072 = 3072
bit_len rsa4096 = 4096
bit_len eccp256 = 256
bit_len eccp384 = 384
bit_len ed25519 = 256
bit_len x25519 = 256

pub data ManagementKeyType : Type 0 where
  tdes aes128 aes192 aes256 : ManagementKeyType

unfoldable pub management_key_code : ManagementKeyType → ℕ
management_key_code tdes = 0x03
management_key_code aes128 = 0x08
management_key_code aes192 = 0x0a
management_key_code aes256 = 0x0c

unfoldable pub key_len : ManagementKeyType → ℕ
key_len tdes = 24
key_len aes128 = 16
key_len aes192 = 24
key_len aes256 = 32

unfoldable pub challenge_len : ManagementKeyType → ℕ
challenge_len tdes = 8
challenge_len aes128 = 16
challenge_len aes192 = 16
challenge_len aes256 = 16

abbrev pub is_tdes : ManagementKeyType → Bool
is_tdes tdes = true
is_tdes aes128 = false
is_tdes aes192 = false
is_tdes aes256 = false

pub data Slot : Type 0 where
  authentication signature key_management card_auth retired1 retired2 retired3 retired4 : Slot
  retired5 retired6 retired7 retired8 retired9 retired10 retired11 retired12 retired13 : Slot
  retired14 retired15 retired16 retired17 retired18 retired19 retired20 attestation : Slot

unfoldable pub slot_code : Slot → ℕ
slot_code authentication = 0x9a
slot_code signature = 0x9c
slot_code key_management = 0x9d
slot_code card_auth = 0x9e
slot_code retired1 = 0x82
slot_code retired2 = 0x83
slot_code retired3 = 0x84
slot_code retired4 = 0x85
slot_code retired5 = 0x86
slot_code retired6 = 0x87
slot_code retired7 = 0x88
slot_code retired8 = 0x89
slot_code retired9 = 0x8a
slot_code retired10 = 0x8b
slot_code retired11 = 0x8c
slot_code retired12 = 0x8d
slot_code retired13 = 0x8e
slot_code retired14 = 0x8f
slot_code retired15 = 0x90
slot_code retired16 = 0x91
slot_code retired17 = 0x92
slot_code retired18 = 0x93
slot_code retired19 = 0x94
slot_code retired20 = 0x95
slot_code attestation = 0xf9

-- `OBJECT_ID.from_slot`: the object of the same name
unfoldable pub from_slot : Slot → ℕ
from_slot authentication = 0x5fc105
from_slot signature = 0x5fc10a
from_slot key_management = 0x5fc10b
from_slot card_auth = 0x5fc101
from_slot retired1 = 0x5fc10d
from_slot retired2 = 0x5fc10e
from_slot retired3 = 0x5fc10f
from_slot retired4 = 0x5fc110
from_slot retired5 = 0x5fc111
from_slot retired6 = 0x5fc112
from_slot retired7 = 0x5fc113
from_slot retired8 = 0x5fc114
from_slot retired9 = 0x5fc115
from_slot retired10 = 0x5fc116
from_slot retired11 = 0x5fc117
from_slot retired12 = 0x5fc118
from_slot retired13 = 0x5fc119
from_slot retired14 = 0x5fc11a
from_slot retired15 = 0x5fc11b
from_slot retired16 = 0x5fc11c
from_slot retired17 = 0x5fc11d
from_slot retired18 = 0x5fc11e
from_slot retired19 = 0x5fc11f
from_slot retired20 = 0x5fc120
from_slot attestation = 0x5fff01

pub data PinPolicy : Type 0 where
  default never once always match_once match_always : PinPolicy

unfoldable pub pin_policy_code : PinPolicy → ℕ
pin_policy_code PinPolicy.default = 0
pin_policy_code PinPolicy.never = 1
pin_policy_code once = 2
pin_policy_code PinPolicy.always = 3
pin_policy_code match_once = 4
pin_policy_code match_always = 5

pub data TouchPolicy : Type 0 where
  default never always cached : TouchPolicy

unfoldable pub touch_policy_code : TouchPolicy → ℕ
touch_policy_code TouchPolicy.default = 0
touch_policy_code TouchPolicy.never = 1
touch_policy_code TouchPolicy.always = 2
touch_policy_code TouchPolicy.cached = 3

-- The first value of an enumeration that has the code, as `ENUM(x)` finds it.
unfoldable pub find_code {ℓ} : {A : Type ℓ} → (A → ℕ) → List A → ℕ → Result A
find_code code [] x = err value_error
find_code code (a ∷ as_) x = let rest = find_code code as_ x in if code a == x then ok a else rest

abbrev pub key_types : List KeyType
key_types = rsa1024 ∷ rsa2048 ∷ rsa3072 ∷ rsa4096 ∷ eccp256 ∷ eccp384 ∷ ed25519 ∷ x25519 ∷ []

abbrev pub management_key_types : List ManagementKeyType
management_key_types = tdes ∷ aes128 ∷ aes192 ∷ aes256 ∷ []

abbrev pub slots : List Slot
slots =
    authentication ∷ signature ∷ key_management ∷ card_auth ∷ retired1 ∷ retired2 ∷ retired3
    ∷ retired4 ∷ retired5 ∷ retired6 ∷ retired7 ∷ retired8 ∷ retired9 ∷ retired10 ∷ retired11
    ∷ retired12 ∷ retired13 ∷ retired14 ∷ retired15 ∷ retired16 ∷ retired17 ∷ retired18 ∷ retired19
    ∷ retired20 ∷ attestation ∷ []

abbrev pub pin_policies : List PinPolicy
pin_policies =
    PinPolicy.default ∷ PinPolicy.never ∷ once ∷ PinPolicy.always ∷ match_once ∷ match_always ∷ []

abbrev pub touch_policies : List TouchPolicy
touch_policies = TouchPolicy.default ∷ TouchPolicy.never ∷ TouchPolicy.always ∷ cached ∷ []

-- `KEY_TYPE(x)`, `MANAGEMENT_KEY_TYPE(x)`, `SLOT(x)`, `PIN_POLICY(x)` and `TOUCH_POLICY(x)`
unfoldable pub key_type : ℕ → Result KeyType
key_type = find_code key_type_code key_types

unfoldable pub management_key_type : ℕ → Result ManagementKeyType
management_key_type = find_code management_key_code management_key_types

unfoldable pub slot : ℕ → Result Slot
slot = find_code slot_code slots

unfoldable pub pin_policy : ℕ → Result PinPolicy
pin_policy = find_code pin_policy_code pin_policies

unfoldable pub touch_policy : ℕ → Result TouchPolicy
touch_policy = find_code touch_policy_code touch_policies
