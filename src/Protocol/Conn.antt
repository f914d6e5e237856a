-- ===== src/Protocol/Conn.antt =====
-- protocol/conn.go: the connection.
pub mod Reader
pub mod Rounds
pub mod Writer
pub mod Queue
pub mod Frames
pub mod Delivery
