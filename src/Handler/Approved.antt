-- ===== src/Handler/Approved.antt =====
-- internal/handler/approved.go
use reservation_worker.Base.{
  List, [], ◌∷◌, String, Option, none, some, Error, plain, wrapped, Result, ok, err, to_int32,
  if◌then◌else◌,
}
use reservation_worker.Event.{PaymentApprovedDetail, Detail, approved, Event, parse_event_detail}
use reservation_worker.Client.{
  UpdateStatusRequest, status_confirmed, client_commit_reservation, update_reservation_status,
}
use reservation_worker.Runtime.{
  CommitReservationRequest, Attribute, text, number, Env, M, ◌>>=◌, ◌>>◌,
}
use reservation_worker.Handler.Finish.{
  open_span, fail_handler, succeed_handler, reject_payload, has_seats,
}

abbrev pub status_of_approved : PaymentApprovedDetail → UpdateStatusRequest
status_of_approved d = record {
  reservation_id = d.reservation_id;
  status = status_confirmed;
  order_id = "";
}

abbrev pub commit_of_approved : PaymentApprovedDetail → CommitReservationRequest
commit_of_approved d = record {
  event_id = d.event_id;
  reservation_id = d.reservation_id;
  quantity = to_int32 d.quantity;
  seat_ids = d.seat_ids;
  payment_intent_id = d.payment_intent_id;
}

-- span.SetAttributes
abbrev pub attributes_of_approved : PaymentApprovedDetail → List (String × Attribute)
attributes_of_approved d =
    ("reservation_id", text d.reservation_id)
    ∷ ("payment_intent_id", text d.payment_intent_id)
    ∷ ("amount", number d.amount)
    ∷ []

module _ (env : Env) (base_url : String) where
  -- Step 2 and what follows it: an error of the commit is only logged.
  unfoldable pub commit_confirmed : PaymentApprovedDetail → M (Option Error)
  unfolding succeed_handler
  commit_confirmed d =
      if has_seats d.event_id d.seat_ids
      then (do _ ← client_commit_reservation env (commit_of_approved d); succeed_handler "approved")
      else succeed_handler "approved"

  -- Handle, from the start of the span on.
  unfoldable pub process_approved : PaymentApprovedDetail → M (Option Error)
  unfolding fail_handler commit_confirmed
  process_approved d = do
    open_span "handle_payment_approved" (attributes_of_approved d)
    e ← update_reservation_status env base_url (status_of_approved d)
    elim e [
      | some x ↦ fail_handler "approved" "failed to update reservation status" x
      | none ↦ commit_confirmed d
    ]

  -- The type assertion on the detail.
  unfoldable pub dispatch_approved : Result Detail → M (Option Error)
  unfolding reject_payload
  dispatch_approved (err e) = reject_payload "approved" (wrapped "failed to parse event detail" e)
  dispatch_approved (ok (approved d)) = process_approved d
  dispatch_approved (ok _) =
      reject_payload "approved" (plain "invalid event detail type for approved event")

  -- ApprovedHandler.Handle
  unfoldable pub handle_approved : Event → M (Option Error)
  unfolding dispatch_approved
  handle_approved event = dispatch_approved (parse_event_detail event)
