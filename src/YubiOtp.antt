-- ===== src/YubiOtp.antt =====
-- yubikit/yubiotp.py: the configuration of the two OTP slots.
pub mod Flags
pub mod Config
pub mod Slot
pub mod Ndef
pub mod State
pub mod Session
pub mod Tests
