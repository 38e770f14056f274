-- ===== src/Poller.antt =====
-- internal/worker/poller.go: events are read from SQS, handed to the worker pool and deleted.
mod Defs
pub mod Offer
pub mod Delivery
pub mod Loop
pub mod Matched
pub mod Prepare
mod Tests
unfoldable pub use Defs.*
