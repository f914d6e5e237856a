-- ===== src/Ui.antt =====
-- ui/: what the desktop backends share: events and their queue, pixel conversion, key names.
pub mod Event
pub mod Queue
pub mod Geometry
pub mod Image
pub mod Monitor
pub mod Keys
pub mod Pixels
mod Tests
