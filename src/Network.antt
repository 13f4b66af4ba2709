-- ===== src/Network.antt =====
-- Components that guard the network: the circuit breaker of outgoing connections.
pub mod Time
pub mod Breaker
pub mod Blocker
pub mod Blocklist
