-- ===== src/Handler/Failed.antt =====
-- internal/handler/failed.go
use reservation_worker.Base.{
  List, [], ◌∷◌, String, Option, none, some, Error, plain, wrapped, Result, ok, err, to_int32,
  if◌then◌else◌,
}
use reservation_worker.Event.{PaymentFailedDetail, Detail, failed, Event, parse_event_detail}
use reservation_worker.Client.{
  UpdateStatusRequest, status_cancelled, client_release_hold, update_reservation_status,
}
use reservation_worker.Runtime.{ReleaseHoldRequest, Attribute, text, number, Env, M, ◌>>=◌, ◌>>◌}
use reservation_worker.Handler.Finish.{
  open_span, fail_handler, succeed_handler, reject_payload, has_seats,
}

abbrev pub status_of_failed : PaymentFailedDetail → UpdateStatusRequest
status_of_failed d = record {
  reservation_id = d.reservation_id;
  status = status_cancelled;
  order_id = "";
}

abbrev pub release_of_failed : PaymentFailedDetail → ReleaseHoldRequest
release_of_failed d = record {
  event_id = d.event_id;
  reservation_id = d.reservation_id;
  quantity = to_int32 d.quantity;
  seat_ids = d.seat_ids;
}

-- span.SetAttributes
abbrev pub attributes_of_failed : PaymentFailedDetail → List (String × Attribute)
attributes_of_failed d =
    ("reservation_id", text d.reservation_id)
    ∷ ("payment_intent_id", text d.payment_intent_id)
    ∷ ("amount", number d.amount)
    ∷ ("error_code", text d.error_code)
    ∷ []

module _ (env : Env) (base_url : String) where
  -- Step 2 and what follows it.
  unfoldable pub release_cancelled : PaymentFailedDetail → M (Option Error)
  unfolding fail_handler succeed_handler
  release_cancelled d =
      if has_seats d.event_id d.seat_ids
      then (do
        e ← client_release_hold env (release_of_failed d)
        elim e [
          | some x ↦ fail_handler "failed" "failed to release hold" x
          | none ↦ succeed_handler "failed"
        ])
      else succeed_handler "failed"

  -- Handle, from the start of the span on.
  unfoldable pub process_failed : PaymentFailedDetail → M (Option Error)
  unfolding release_cancelled
  process_failed d = do
    open_span "handle_payment_failed" (attributes_of_failed d)
    e ← update_reservation_status env base_url (status_of_failed d)
    elim e [
      | some x ↦ fail_handler "failed" "failed to update reservation status" x
      | none ↦ release_cancelled d
    ]

  -- The type assertion on the detail.
  unfoldable pub dispatch_failed : Result Detail → M (Option Error)
  unfolding reject_payload
  dispatch_failed (err e) = reject_payload "failed" (wrapped "failed to parse event detail" e)
  dispatch_failed (ok (failed d)) = process_failed d
  dispatch_failed (ok _) =
      reject_payload "failed" (plain "invalid event detail type for failed event")

  -- FailedHandler.Handle
  unfoldable pub handle_failed : Event → M (Option Error)
  unfolding dispatch_failed
  handle_failed event = dispatch_failed (parse_event_detail event)
