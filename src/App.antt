-- ===== src/App.antt =====
-- The application's life cycle (cool-next/core/app/lifecycle.go).
pub mod Lifecycle
pub mod Assembly
pub mod Order
pub mod Scanning
pub mod Passing
pub mod Registering
pub mod Fitting
pub mod Verdict
pub mod Calling
pub mod Stopping
mod Examples
