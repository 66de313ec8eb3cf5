-- ===== src/Outbox.antt =====
-- Reliable messages (cool-next/outbox): what a message is, the table that holds it, and the store.
pub mod Record
pub mod Statements
pub mod Store
pub mod Change
pub mod Runs
pub mod Rows
pub mod Invariant
pub mod Fencing
pub mod Holding
pub mod Inversion
pub mod Claims
pub mod Backoff
pub mod Settings
pub mod Worker
pub mod Publishing
pub mod MessageId
pub mod Envelope
pub mod Consumer
pub mod Delivery
mod Examples
