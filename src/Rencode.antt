-- ===== src/Rencode.antt =====
-- rencodeplus/: xpra's packet serialization. `Value` is the data, `Encode` and `Decode` the two
-- directions, `Decimal` Go's decimal conversions; the other modules hold the proofs.
pub mod Value
pub mod Tag
pub mod Decimal
pub mod Encode
pub mod Decode
pub mod Received
pub mod Decoded
pub mod RoundTrip
mod Tests
