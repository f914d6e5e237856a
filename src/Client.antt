-- ===== src/Client.antt =====
-- client/: the session between a server and a desktop, and its parts.
pub mod Image
pub mod State
pub mod Windows
pub mod Draw
pub mod Clipboard
pub mod Hello
pub mod Control
pub mod Dispatch
pub mod Run
pub mod Local
pub mod Focus
pub mod Monitor
pub mod Mmap
mod Tests
