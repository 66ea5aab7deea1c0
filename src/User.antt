-- ===== src/User.antt =====
-- Users and their permissions: conreg-server/src/system.
pub mod Entry
pub mod Permission
pub mod Manager
pub mod Access
