-- ===== src/Link.antt =====
-- The link layer: status codes, COBS, and what is built on them.
pub mod Status
pub mod Cobs
pub mod Crc
pub mod Frame
pub mod Protocol
