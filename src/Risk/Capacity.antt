-- ===== src/Risk/Capacity.antt =====
-- The capacities of the memory backend.
pub mod Accounts
pub mod Requests
