-- ===== src/Core/Pid.antt =====
-- yubikit/core/__init__.py: `YUBIKEY`, `USB_INTERFACE` and `PID`.
use yubikey_manager.Prelude.{
  ℕ, ◌+◌, ◌≡◌, refl, Bool, true, false, ◌&&◌, List, [], ◌∷◌, bit_and, ◌==◌, if◌then◌else◌, All,
}
use yubikey_manager.Core.Error.{Result, ok, err, key_error}

pub data Platform : Type 0 where
  yks neo sky ykp yk4 : Platform

pub data Interface : Type 0 where
  otp fido ccid : Interface

abbrev pub interface_value : Interface → ℕ
interface_value otp = 0x01
interface_value fido = 0x02
interface_value ccid = 0x04

-- A member: its value, and its name, in the parts between the underscores.
pub record Pid : Type 0 where
  pub code : ℕ
  pub platform : Platform
  pub suffix : List Interface

abbrev pid : ℕ → Platform → List Interface → Pid
pid code platform suffix = record { code = code; platform = platform; suffix = suffix }

unfoldable pub pids : List Pid
pids =
    pid 0x0010 yks (otp ∷ [])
    ∷ pid 0x0110 neo (otp ∷ [])
    ∷ pid 0x0111 neo (otp ∷ ccid ∷ [])
    ∷ pid 0x0112 neo (ccid ∷ [])
    ∷ pid 0x0113 neo (fido ∷ [])
    ∷ pid 0x0114 neo (otp ∷ fido ∷ [])
    ∷ pid 0x0115 neo (fido ∷ ccid ∷ [])
    ∷ pid 0x0116 neo (otp ∷ fido ∷ ccid ∷ [])
    ∷ pid 0x0120 sky (fido ∷ [])
    ∷ pid 0x0401 yk4 (otp ∷ [])
    ∷ pid 0x0402 yk4 (fido ∷ [])
    ∷ pid 0x0403 yk4 (otp ∷ fido ∷ [])
    ∷ pid 0x0404 yk4 (ccid ∷ [])
    ∷ pid 0x0405 yk4 (otp ∷ ccid ∷ [])
    ∷ pid 0x0406 yk4 (fido ∷ ccid ∷ [])
    ∷ pid 0x0407 yk4 (otp ∷ fido ∷ ccid ∷ [])
    ∷ pid 0x0410 ykp (otp ∷ fido ∷ [])
    ∷ []

-- `usb_interfaces`: the sum of the values
unfoldable pub sum_interfaces : List Interface → ℕ
sum_interfaces [] = 0
sum_interfaces (i ∷ is) = interface_value i + sum_interfaces is

abbrev pub interfaces_of : Pid → ℕ
interfaces_of p = sum_interfaces p.suffix

same_platform : Platform → Platform → Bool
same_platform yks yks = true
same_platform neo neo = true
same_platform sky sky = true
same_platform ykp ykp = true
same_platform yk4 yk4 = true
same_platform _ _ = false

same_suffix : List Interface → List Interface → Bool
same_suffix [] [] = true
same_suffix (i ∷ is) (j ∷ js) = interface_value i == interface_value j && same_suffix is js
same_suffix _ _ = false

-- `cls[name]`
unfoldable pub find_pid : Platform → List Interface → List Pid → Result ℕ
unfolding same_platform same_suffix
find_pid platform suffix [] = err key_error
find_pid platform suffix (p ∷ ps) =
    let other = find_pid platform suffix ps in
    if same_platform p.platform platform && same_suffix p.suffix suffix then ok p.code else other

-- `t in interfaces`, for the three in the order of the enumeration
unfoldable pub suffix_of : List Interface → ℕ → List Interface
suffix_of [] interfaces = []
suffix_of (i ∷ is) interfaces =
    let rest = suffix_of is interfaces in
    if bit_and interfaces (interface_value i) == interface_value i then i ∷ rest else rest

-- `PID.of`
unfoldable pub pid_of : Platform → ℕ → Result ℕ
pid_of platform interfaces = find_pid platform (suffix_of (otp ∷ fido ∷ ccid ∷ []) interfaces) pids

-- `PID.supports_connection`, for the interface of a connection type
abbrev pub supports_connection : Pid → ℕ → Bool
supports_connection p interface = bit_and (interfaces_of p) interface == interface

abbrev pub IsFound : Pid → Type 0
IsFound p = pid_of p.platform (interfaces_of p) ≡ ok p.code

-- `PID.of` gives each member of `PID` for the member's platform and interfaces.
pub pid_of-interfaces_of : All IsFound pids
unfolding pids pid_of find_pid suffix_of sum_interfaces same_platform same_suffix
pid_of-interfaces_of = (
  refl,
  (
    refl,
    (
      refl,
      (
        refl,
        (
          refl,
          (
            refl,
            (
              refl,
              (refl, (refl, (refl, (refl, (refl, (refl, (refl, (refl, (refl, (refl, tt)))))))))),
            ),
          ),
        ),
      ),
    ),
  ),
)
