-- ===== src/Config.antt =====
-- The configuration centre: conreg-server/src/config/server.
pub mod Entry
pub mod Manager
pub mod Transfer
pub mod Reads
pub mod Writes
pub mod Stale
pub mod Sync
pub mod Restore
pub mod Pages
