-- ===== src/Handler/Tests.antt =====
-- The theorems about the handlers at concrete details.
use reservation_worker.Base.{none, [], ◌∷◌, ◌≡◌, ◌≢◌, ◌⊎◌, ◌↔◌, refl}
use reservation_worker.Event.{parse_event_detail, decode_expired}
use reservation_worker.Client.{
  grpc_timeout_ms, patch_request, update_reservation_status, client_release_hold, status_result,
  is_success,
}
use reservation_worker.Json.{names, string_value, int_value, strings_value}
use reservation_worker.Runtime.{
  release_hold, commit_reservation, http_do, start_span, set_attributes,
}
use reservation_worker.Handler.Finish.{open_span}
use reservation_worker.Handler.Expired.{
  attributes_of_expired, release_of_expired, status_of_expired, process_expired, handle_expired,
}
use reservation_worker.Handler.Approved.{
  attributes_of_approved, commit_of_approved, status_of_approved, process_approved,
}
use reservation_worker.Handler.Saga.{AllSucceed}
use reservation_worker.Handler.Kinds.{process, handle}
use reservation_worker.Handler.Refine.{steps_of, saga_of, process-saga}
use reservation_worker.Event.{Detail, approved}
use reservation_worker.Event.Laws.{failure}
use reservation_worker.Handler.Outcomes.{Handled, handle-Handled}
use reservation_worker.Handler.Order.{downstream, process_expired-order, process_approved-order}
use reservation_worker.Samples.{
  expired_detail, approved_detail, expired_event, failed_event, calm, broken, fresh,
}

process-saga_example :
    let d : Detail = approved approved_detail in
    let steps = steps_of broken "http://api" d in
    (process broken "http://api" d fresh ≡ saga_of broken "http://api" d fresh)
    × (((process broken "http://api" d fresh).0 ≡ none)
        ↔ AllSucceed steps
            (open_span "handle_payment_approved" (attributes_of_approved approved_detail) fresh).1)
process-saga_example = process-saga broken "http://api" (approved approved_detail) fresh

handle-Handled_example :
    Handled failure
      (parse_event_detail failed_event)
      fresh
      (handle calm "http://api" failure failed_event fresh)
handle-Handled_example = handle-Handled calm "http://api" failure failed_event fresh

process_expired-order_example :
    let release = release_hold grpc_timeout_ms (release_of_expired expired_detail) in
    let patch = http_do (patch_request broken "http://api" (status_of_expired expired_detail)) in
    let (r, t) = process_expired broken "http://api" expired_detail fresh in
    ((downstream t ≡ release ∷ downstream fresh) × (r ≢ none))
    ⊎ ((downstream t ≡ patch ∷ release ∷ downstream fresh)
        × (broken.on_release_hold
              (set_attributes (attributes_of_expired expired_detail)
                ∷ start_span "handle_reservation_expired"
                ∷ [])
              (release_of_expired expired_detail)
            ≡ none))
process_expired-order_example = process_expired-order broken "http://api" expired_detail fresh

process_approved-order_example :
    let commit = commit_reservation grpc_timeout_ms (commit_of_approved approved_detail) in
    let s' =
      (open_span "handle_payment_approved" (attributes_of_approved approved_detail) fresh).1 in
    let (confirmed, u) =
      update_reservation_status calm "http://api" (status_of_approved approved_detail) s' in
    let (r, t) = process_approved calm "http://api" approved_detail fresh in
    ((confirmed ≡ none)
      × (r ≡ none)
      × (approved_detail.event_id ≢ "")
      × (approved_detail.seat_ids ≢ [])
      × (downstream t ≡ commit ∷ downstream u))
    ⊎ ((confirmed ≡ none)
        × (r ≡ none)
        × ((approved_detail.event_id ≡ "") ⊎ (approved_detail.seat_ids ≡ []))
        × (downstream t ≡ downstream u))
    ⊎ ((confirmed ≢ none) × (r ≢ none) × (downstream t ≡ downstream u))
process_approved-order_example = process_approved-order calm "http://api" approved_detail fresh

-- A handled event sends the release before the new status.
expired_calls :
    downstream (handle_expired calm "http://api" expired_event fresh).1
    ≡ http_do (patch_request calm "http://api" (status_of_expired expired_detail))
      ∷ release_hold 250 (release_of_expired expired_detail)
      ∷ []
unfolding handle_expired parse_event_detail decode_expired names string_value int_value
    strings_value process_expired client_release_hold update_reservation_status status_result
    is_success
expired_calls = refl
