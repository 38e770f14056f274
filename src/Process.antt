-- ===== src/Process.antt =====
-- cmd/reservation-worker/main.go: the start of the process and its shutdown.
mod Startup
pub mod Checks
mod Shutdown
pub mod Exit
pub mod Refine
pub mod Ends
pub mod Race
pub mod Losses
mod Tests
unfoldable pub use Startup.*
pub use Shutdown.*
