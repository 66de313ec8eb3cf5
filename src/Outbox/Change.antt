-- ===== src/Outbox/Change.antt =====
-- The store as a state machine: the changes that one statement can make, whoever runs it, and the
-- databases that are reached by them. `Leases` and `Upkeep` show that every operation of the store
-- is such a sequence, on every path.
pub mod Rules
pub mod Leases
pub mod Upkeep
