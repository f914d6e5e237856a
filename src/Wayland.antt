-- ===== src/Wayland.antt =====
-- wayland/: what the backend computes itself, apart from its calls of the compositor.
pub mod Keymap
pub mod Wire
mod Tests
