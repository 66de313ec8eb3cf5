-- ===== src/Outbox/Worker.antt =====
-- The publishing loop (cool-next/outbox/worker.go) over the store's database.
mod Batch
mod Publish
mod Lifecycle
unfoldable pub use Batch.*
unfoldable pub use Publish.*
unfoldable pub use Lifecycle.*
