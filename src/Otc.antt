-- ===== src/Otc.antt =====
-- The OTC profile: signals for IQ Option binaries with automatic protections (src/otc).
pub mod Models
pub mod Martingale
pub mod Stake
pub mod Guard
pub mod Session
pub mod Executor
pub mod Simulation
pub mod Schedule
pub mod Settlement
pub mod Dispatch
