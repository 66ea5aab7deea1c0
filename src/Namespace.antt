-- ===== src/Namespace.antt =====
-- Namespaces: conreg-server/src/namespace/server.
pub mod Entry
pub mod Manager
pub mod Access
