-- ===== src/Scancodes.antt =====
-- ykman/scancodes: the characters of a static password as codes of keys.
pub mod Tables
pub mod Encode
pub mod Tests
