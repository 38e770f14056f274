-- ===== src/System.antt =====
-- The worker pool and HandleEvent together: internal/worker/worker.go calls HandleEvent of
-- internal/worker/dispatcher.go for every event that it receives.
mod Defs
pub mod Ledger
pub mod Joint
pub mod Whole
mod Tests
pub use Defs.*
