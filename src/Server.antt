-- ===== src/Server.antt =====
-- pgzero.go: what a server keeps of its log, and the connection strings that it gives.
pub mod LogTail
pub mod ConnString
pub mod Startup
pub mod Template
mod Tests
