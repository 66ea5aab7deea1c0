-- ===== src/LoadBalance.antt =====
-- The client's load balancing: conreg-client/src/lb.
pub mod Instance
pub mod Strategy
pub mod Round
pub mod WeightRound
pub mod Random
pub mod WeightRandom
pub mod Client
pub mod Weights
pub mod Rounds
pub mod Url
pub mod Target
pub mod Bounds
pub mod Requests
