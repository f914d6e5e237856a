-- ===== src/Protocol.antt =====
-- protocol/: xpra's packet framing. `Header` and `Chunks` are the wire format, `Packet` the access to
-- decoded packets, `Compression` the inflation of payloads, `Conn` the connection and its loops.
pub mod Header
pub mod Chunks
pub mod Packet
pub mod Compression
pub mod Conn
mod Tests
