-- ===== src/Piv.antt =====
-- yubikit/piv.py: its enumerations, PINs, metadata, FASC-N, and `PivSession`.
pub mod Types
pub mod Pin
pub mod Metadata
pub mod Support
pub mod Fascn
pub mod Session
pub mod Management
pub mod Objects
pub mod KeyData
pub mod Keys
pub mod Tests
