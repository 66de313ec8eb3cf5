-- ===== src/Outbox/Publishing.antt =====
-- What the publishing loop guarantees.
pub mod Batches
pub mod Outcomes
