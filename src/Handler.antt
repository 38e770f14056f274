-- ===== src/Handler.antt =====
-- internal/handler/expired.go, approved.go and failed.go: one handler for each kind of event.
mod Finish
mod Expired
mod Approved
mod Failed
pub mod Kinds
pub mod Saga
pub mod Refine
pub mod Outcomes
pub mod Order
pub mod Calls
mod Tests
unfoldable pub use Finish.{open_span, fail_handler, succeed_handler, reject_payload, has_seats}
unfoldable pub use Expired.{process_expired, handle_expired}
unfoldable pub use Approved.{process_approved, handle_approved}
unfoldable pub use Failed.{process_failed, handle_failed}
pub use Expired.{attributes_of_expired, release_of_expired, status_of_expired}
pub use Approved.{attributes_of_approved, commit_of_approved, status_of_approved}
pub use Failed.{attributes_of_failed, release_of_failed, status_of_failed}
