-- ===== src/Auth.antt =====
-- Authentication (cool-next/auth): sessions, their stores and the service in front of them.
pub mod Decimal
pub mod Session
pub mod Wire
pub mod Store
pub mod Service
pub mod Ids
pub mod Permission
mod Examples
