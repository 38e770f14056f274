-- ===== src/Client.antt =====
-- internal/client: the gRPC client of the inventory and the HTTP client of the reservation API.
mod Details
mod Defs
pub mod Laws
mod Tests
unfoldable pub use Details.{set_details}
pub use Details.{ReservationDetails, zero_details}
unfoldable pub use Defs.*
