-- ===== src/Handler/Expired.antt =====
-- internal/handler/expired.go
use reservation_worker.Base.{
  List, [], ◌∷◌, String, Option, none, some, Error, plain, wrapped, Result, ok, err, to_int32,
}
use reservation_worker.Event.{ReservationExpiredDetail, Detail, expired, Event, parse_event_detail}
use reservation_worker.Client.{
  UpdateStatusRequest, status_expired, client_release_hold, update_reservation_status,
}
use reservation_worker.Runtime.{ReleaseHoldRequest, Attribute, text, number, Env, M, ◌>>=◌, ◌>>◌}
use reservation_worker.Handler.Finish.{open_span, fail_handler, succeed_handler, reject_payload}

abbrev pub release_of_expired : ReservationExpiredDetail → ReleaseHoldRequest
release_of_expired d = record {
  event_id = d.event_id;
  reservation_id = d.reservation_id;
  quantity = to_int32 d.quantity;
  seat_ids = d.seat_ids;
}

abbrev pub status_of_expired : ReservationExpiredDetail → UpdateStatusRequest
status_of_expired d = record {
  reservation_id = d.reservation_id;
  status = status_expired;
  order_id = "";
}

-- span.SetAttributes
abbrev pub attributes_of_expired : ReservationExpiredDetail → List (String × Attribute)
attributes_of_expired d =
    ("reservation_id", text d.reservation_id)
    ∷ ("event_id", text d.event_id)
    ∷ ("quantity", number d.quantity)
    ∷ []

module _ (env : Env) (base_url : String) where
  -- Step 2 and what follows it.
  unfoldable pub expire_released : ReservationExpiredDetail → M (Option Error)
  unfolding fail_handler succeed_handler
  expire_released d = do
    e ← update_reservation_status env base_url (status_of_expired d)
    elim e [
      | some x ↦ fail_handler "expired" "failed to update reservation status" x
      | none ↦ succeed_handler "expired"
    ]

  -- Handle, from the start of the span on.
  unfoldable pub process_expired : ReservationExpiredDetail → M (Option Error)
  unfolding expire_released
  process_expired d = do
    open_span "handle_reservation_expired" (attributes_of_expired d)
    e ← client_release_hold env (release_of_expired d)
    elim e [ some x ↦ fail_handler "expired" "failed to release hold" x | none ↦ expire_released d ]

  -- The type assertion on the detail.
  unfoldable pub dispatch_expired : Result Detail → M (Option Error)
  unfolding reject_payload
  dispatch_expired (err e) = reject_payload "expired" (wrapped "failed to parse event detail" e)
  dispatch_expired (ok (expired d)) = process_expired d
  dispatch_expired (ok _) =
      reject_payload "expired" (plain "invalid event detail type for expired event")

  -- ExpiredHandler.Handle
  unfoldable pub handle_expired : Event → M (Option Error)
  unfolding dispatch_expired
  handle_expired event = dispatch_expired (parse_event_detail event)
