-- ===== src/Piv/Types/Codes.antt =====
-- Every slot has an object of its own, and is found by its code.
use yubikey_manager.Prelude.{◌^◌, ◌≤◌, ◌<◌, ◌≡◌, refl, arith}
use yubikey_manager.Core.Error.{ok}
use yubikey_manager.Piv.Types.{
  Slot, authentication, signature, key_management, card_auth, attestation, retired1, retired2,
  retired3, retired4, retired5, retired6, retired7, retired8, retired9, retired10, retired11,
  retired12, retired13, retired14, retired15, retired16, retired17, retired18, retired19, retired20,
  slot_code, from_slot, slot, find_code,
}

-- A slot is found by its code.
pub slot-slot_code : (s : Slot) → slot (slot_code s) ≡ ok s
unfolding slot slot_code find_code
slot-slot_code authentication = refl
slot-slot_code signature = refl
slot-slot_code key_management = refl
slot-slot_code card_auth = refl
slot-slot_code retired1 = refl
slot-slot_code retired2 = refl
slot-slot_code retired3 = refl
slot-slot_code retired4 = refl
slot-slot_code retired5 = refl
slot-slot_code retired6 = refl
slot-slot_code retired7 = refl
slot-slot_code retired8 = refl
slot-slot_code retired9 = refl
slot-slot_code retired10 = refl
slot-slot_code retired11 = refl
slot-slot_code retired12 = refl
slot-slot_code retired13 = refl
slot-slot_code retired14 = refl
slot-slot_code retired15 = refl
slot-slot_code retired16 = refl
slot-slot_code retired17 = refl
slot-slot_code retired18 = refl
slot-slot_code retired19 = refl
slot-slot_code retired20 = refl
slot-slot_code attestation = refl

-- The objects of the slots have ids of three bytes.
pub from_slot_bounds : (s : Slot) → (0x5fc101 ≤ from_slot s) × (from_slot s < 256 ^ 3)
unfolding from_slot
from_slot_bounds authentication = omega arith
from_slot_bounds signature = omega arith
from_slot_bounds key_management = omega arith
from_slot_bounds card_auth = omega arith
from_slot_bounds retired1 = omega arith
from_slot_bounds retired2 = omega arith
from_slot_bounds retired3 = omega arith
from_slot_bounds retired4 = omega arith
from_slot_bounds retired5 = omega arith
from_slot_bounds retired6 = omega arith
from_slot_bounds retired7 = omega arith
from_slot_bounds retired8 = omega arith
from_slot_bounds retired9 = omega arith
from_slot_bounds retired10 = omega arith
from_slot_bounds retired11 = omega arith
from_slot_bounds retired12 = omega arith
from_slot_bounds retired13 = omega arith
from_slot_bounds retired14 = omega arith
from_slot_bounds retired15 = omega arith
from_slot_bounds retired16 = omega arith
from_slot_bounds retired17 = omega arith
from_slot_bounds retired18 = omega arith
from_slot_bounds retired19 = omega arith
from_slot_bounds retired20 = omega arith
from_slot_bounds attestation = omega arith
