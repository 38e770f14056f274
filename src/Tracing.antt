-- ===== src/Tracing.antt =====
-- internal/observability/tracing.go: spans, and the set-up of OpenTelemetry.
mod Defs
pub mod Laws
mod Tests
unfoldable pub use Defs.*
