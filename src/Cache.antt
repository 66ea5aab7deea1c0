-- ===== src/Cache.antt =====
-- The node's local cache: conreg-server/src/cache.
pub mod Local
pub mod Expiry
pub mod Ratelimit
pub mod Disk
pub mod Global
pub mod Shared
