-- ===== src/Config.antt =====
-- internal/config: the configuration from environment variables and from AWS Secrets Manager, and the
-- backoff that it sets.
pub mod Parse
mod Defs
pub mod Secrets
pub mod Backoff
pub mod Laws
mod Tests
unfoldable pub use Defs.*
