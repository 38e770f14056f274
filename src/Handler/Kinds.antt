-- ===== src/Handler/Kinds.antt =====
-- The three handlers of internal/handler side by side: names, attributes, Handle, and what Handle does
-- with a detail.
use reservation_worker.Base.{String, Option, Error, List}
use reservation_worker.Event.{Detail, expired, approved, failed, Event}
use reservation_worker.Event.Laws.{Kind, expiry, approval, failure}
use reservation_worker.Runtime.{Attribute, Env, M}
use reservation_worker.Handler.Expired.{attributes_of_expired, process_expired, handle_expired}
use reservation_worker.Handler.Approved.{attributes_of_approved, process_approved, handle_approved}
use reservation_worker.Handler.Failed.{attributes_of_failed, process_failed, handle_failed}

abbrev pub handler_name : Kind → String
handler_name expiry = "expired"
handler_name approval = "approved"
handler_name failure = "failed"

abbrev pub span_name : Kind → String
span_name expiry = "handle_reservation_expired"
span_name approval = "handle_payment_approved"
span_name failure = "handle_payment_failed"

abbrev pub attributes_of : Detail → List (String × Attribute)
attributes_of (expired d) = attributes_of_expired d
attributes_of (approved d) = attributes_of_approved d
attributes_of (failed d) = attributes_of_failed d

module _ (env : Env) (base_url : String) where
  abbrev pub handle : Kind → Event → M (Option Error)
  handle expiry = handle_expired env base_url
  handle approval = handle_approved env base_url
  handle failure = handle_failed env base_url

  abbrev pub process : Detail → M (Option Error)
  process (expired d) = process_expired env base_url d
  process (approved d) = process_approved env base_url d
  process (failed d) = process_failed env base_url d
