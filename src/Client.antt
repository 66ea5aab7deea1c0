-- ===== src/Client.antt =====
-- The client: conreg-client/src/config.rs, discovery.rs, conf.rs, network/mod.rs and the parts of lib.rs
-- that keep state.
pub mod Conf
pub mod Network
pub mod Format
pub mod Flatten
pub mod Configs
pub mod State
pub mod Config
pub mod Leaves
pub mod Reload
pub mod Discovery
pub mod Heartbeat
pub mod Cache
pub mod Bootstrap
pub mod Center
pub mod Calls
pub mod Start
