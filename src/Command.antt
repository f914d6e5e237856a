-- ===== src/Command.antt =====
-- cmd/go-xpra: the URL that names the server, and the ssh client that is started to reach it.
pub mod Target
pub mod Shell
pub mod Ssh
pub mod Url
pub mod Tls
pub mod Dialog
mod Tests
