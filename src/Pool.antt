-- ===== src/Pool.antt =====
-- The worker pool: Dispatcher.Start, dispatch and Stop of internal/worker/dispatcher.go, and
-- Worker.Start of internal/worker/worker.go, as steps that interleave in any order.
pub mod Defs
mod Count
pub mod Order
pub mod Ownership
pub mod Shutdown
pub mod Gauge
pub mod Work
pub mod Progress
pub mod Rest
pub mod Drain
pub mod Lost
pub mod Prompt
pub mod Serves
pub mod Service
pub mod Refine
pub mod Accounting
mod Tests
pub use Defs.*
