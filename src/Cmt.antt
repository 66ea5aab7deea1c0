-- ===== src/Cmt.antt =====
-- The command line tool of the cluster: conreg-cmt/src/main.rs.
pub mod Node
pub mod Commands
pub mod Members
pub mod Http
pub mod Status
pub mod Run
pub mod Widths
pub mod Nodes
pub mod Served
