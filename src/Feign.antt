-- ===== src/Feign.antt =====
-- The macro `feign_client` (conreg-feign-macro/src/feign_client.rs).
pub mod Syntax
pub mod Args
pub mod Template
pub mod Analysis
pub mod Url
pub mod Request
pub mod Method
pub mod Names
pub mod Classes
pub mod Multipart
pub mod Generate
