-- ===== src/HsmAuth.antt =====
-- yubikit/hsmauth.py: labels, passwords, credentials and `HsmAuthSession`.
pub mod Data
pub mod Session
pub mod Listing
pub mod Refusal
pub mod Tests
