-- ===== src/Oath.antt =====
-- yubikit/oath.py: credential ids, codes, and `OathSession`.
pub mod Credential
pub mod Code
pub mod Data
pub mod Session
pub mod Store
pub mod Tests
