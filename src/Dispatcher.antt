-- ===== src/Dispatcher.antt =====
-- internal/worker/dispatcher.go: HandleEvent, which routes an event to its handler and retries.
mod Defs
pub mod Quiet
pub mod Runs
pub mod Verdict
pub mod Counters
pub mod Slept
pub mod Effects
pub mod Stuck
mod StuckTests
mod Tests
unfoldable pub use Defs.*
