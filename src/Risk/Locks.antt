-- ===== src/Risk/Locks.antt =====
-- Locked accounts.
pub mod Accounts
pub mod Requests
