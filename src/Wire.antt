-- ===== src/Wire.antt =====
-- Messages as bytes: buffers, the header and the AVPs (common/src/diaMsg.c, common/src/diaAvp.c).
pub mod Words
pub mod Buf
pub mod Header
pub mod HeaderBytes
pub mod Flags
pub mod Encode
pub mod Shape
pub mod Fields
pub mod Written
pub mod Decode
pub mod Held
pub mod Decoded
pub mod RoundTrip
pub mod Message
pub mod Fuel
pub mod MessageWritten
pub mod MessageTrip
pub mod Endless
pub mod Demo
mod Tests
