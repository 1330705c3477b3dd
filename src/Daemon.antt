-- ===== src/Daemon.antt =====
-- forward/src, the daemon: it fills the rules' map, removes idle sessions, and serves commands.
pub mod Words
pub mod Host
pub mod Cleanup
pub mod Rules
pub mod Service
pub mod Http
pub mod Sessions
pub mod Command
pub mod Client
pub mod Samples
mod Tests
mod InterfaceTests
mod ClientTests
