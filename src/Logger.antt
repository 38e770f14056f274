-- ===== src/Logger.antt =====
-- internal/observability/logger.go: the level of the logger, and the fields of its lines.
mod Defs
pub mod Laws
mod Tests
unfoldable pub use Defs.*
