-- ===== src/Wiring.antt =====
-- The constructors of internal/worker and internal/handler: who holds what.
mod Defs
pub mod Shared
mod Tests
unfoldable pub use Defs.*
