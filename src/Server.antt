-- ===== src/Server.antt =====
-- The start of a node: conreg-server/src/main.rs, app.rs, db/mod.rs and web.rs.
pub mod Args
pub mod Files
pub mod Setup
pub mod Restart
pub mod Start
pub mod Web
pub mod Boot
