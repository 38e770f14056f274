-- ===== src/Retry.antt =====
-- internal/retry/retry.go: retries with backoff that end when the context does.
mod Defs
pub mod Verdict
pub mod Same
mod Tests
unfoldable pub use Defs.*
