-- ===== src/Core.antt =====
-- yubikit/core/__init__.py: errors, versions, integers as bytes, TLV, PIDs.
pub mod Error
pub mod Io
pub mod Bytes
pub mod Dict
pub mod Version
pub mod Tlv
pub mod Pid
pub mod Text
pub mod Tests
