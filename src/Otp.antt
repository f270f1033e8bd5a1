-- ===== src/Otp.antt =====
-- yubikit/core/otp.py: the HID frame protocol, its checksum, and modhex.
pub mod Crc
pub mod Modhex
pub mod Frame
pub mod Protocol
pub mod Tests
