-- ===== src/Outbox/Delivery.antt =====
-- What deliveries do to the handlers' state, and how often they come.
pub mod Marks
pub mod Effects
pub mod Retries
