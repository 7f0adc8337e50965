-- ===== src/Base32.antt =====
-- The base32 encoding of hexadecimal strings: base/src/pextlib1.0/base32cmd.c.
pub mod Hex
pub mod Encode
pub mod Decode
pub mod Groups
pub mod RoundTrip
mod Tests
