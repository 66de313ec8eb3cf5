-- ===== src/Outbox/Claims.antt =====
-- What a claim gives: each record was due, and is now leased to the owner under its own token.
pub mod Rows
pub mod Granted
pub mod Loop
