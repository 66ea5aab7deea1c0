-- ===== src/Api.antt =====
-- The server's routes: conreg-server/src/config/server/api.rs, namespace/server/api.rs,
-- discovery/server/api.rs and system/api.rs.
pub mod Reply
pub mod Config
pub mod Namespace
pub mod Discovery
pub mod System
pub mod Routes
pub mod Login
pub mod Effects
