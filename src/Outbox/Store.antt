-- ===== src/Outbox/Store.antt =====
-- The operations of `DatabaseStore` (cool-next/outbox/store/database.go) over a database whose
-- statements may fail. A transaction that ends in an error leaves the tables as they were.
mod Monad
mod Claim
mod Upkeep
mod Inbox
unfoldable pub use Monad.*
unfoldable pub use Claim.*
unfoldable pub use Upkeep.*
unfoldable pub use Inbox.*
