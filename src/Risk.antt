-- ===== src/Risk.antt =====
-- Risk control (cool-next/risk/risk.go): captchas, login limits, and the breaker before Redis.
pub mod Memory
pub mod Operations
pub mod Shrinking
pub mod Keeping
pub mod Runs
pub mod Capacity
pub mod Captchas
pub mod Locks
pub mod Breaker
pub mod Recovery
mod Examples
