-- ===== src/Event.antt =====
-- internal/handler/event.go: the event, its three kinds of detail, and ParseEventDetail.
pub mod Decode
mod Defs
pub mod Laws
pub mod RoundTrip
mod Tests
unfoldable pub use Decode.{decode_expired, decode_approved, decode_failed, decode_event}
pub use Decode.{ReservationExpiredDetail, PaymentApprovedDetail, PaymentFailedDetail, Event}
unfoldable pub use Defs.*
