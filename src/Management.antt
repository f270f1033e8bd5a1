-- ===== src/Management.antt =====
-- yubikit/management.py: capabilities, modes, the device's settings and information, the session.
pub mod Capability
pub mod Mode
pub mod Config
pub mod Info
pub mod Session
pub mod Tests
