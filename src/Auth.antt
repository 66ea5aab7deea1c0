-- ===== src/Auth.antt =====
-- The guards of requests (conreg-server/src/auth/mod.rs).
pub mod Guard
pub mod Admission
pub mod Session
