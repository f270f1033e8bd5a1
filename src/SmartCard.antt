-- ===== src/SmartCard.antt =====
-- yubikit/core/smartcard: APDUs, command and response chaining, secure messaging, the protocol.
pub mod Apdu
pub mod Chaining
pub mod Scp
pub mod Secure
pub mod Protocol
pub mod Application
pub mod Retries
pub mod Tests
