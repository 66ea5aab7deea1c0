-- ===== src/Tests.antt =====
-- Runs of the development, with the instances at which its theorems apply.
mod Node
mod Discovery
mod LoadBalance
mod Config
mod Namespace
mod Cache
mod Raft
mod User
mod EncDec
mod Client
mod Cmt
mod Feign
mod Api
mod Remote
mod Server
