-- ===== src/Metrics.antt =====
-- internal/observability/metrics.go: the Prometheus metrics of the worker.
mod Defs
pub mod Laws
mod Registry
mod Tests
unfoldable pub use Registry.*
unfoldable pub use Defs.*
