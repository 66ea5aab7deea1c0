-- ===== src/Discovery.antt =====
-- The registry of service instances: conreg-server/src/discovery.
pub mod Instance
pub mod Registry
pub mod Service
pub mod Manager
pub mod View
pub mod Effects
pub mod Invariant
pub mod Lifecycle
