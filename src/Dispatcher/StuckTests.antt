-- ===== src/Dispatcher/StuckTests.antt =====
-- An inventory that releases a hold once, while the reservation API is down.
use reservation_worker.Base.{
  String, Bool, true, false, ◌==◌, ◌||◌, some, none, List, [], ◌∷◌, foreign, Result, ◌≡◌, ◌≢◌, inl,
  inr, refl, arith, eq_iff, if◌then◌else◌,
}
use reservation_worker.Event.{expired, parse_event_detail, decode_expired}
use reservation_worker.Json.{names, string_value, int_value, strings_value}
use reservation_worker.Client.{
  client_release_hold, update_reservation_status, status_result, is_success,
}
use reservation_worker.Runtime.{Call, release_hold, Env}
use reservation_worker.Handler.{process_expired}
use reservation_worker.Handler.Outcomes.{select_calls}
use reservation_worker.Dispatcher.Defs.{handle_event}
use reservation_worker.Dispatcher.Verdict.{enough_fuel}
use reservation_worker.Dispatcher.Stuck.{is_http, IsReleased, RefusesTwice, worker_call-IsReleased}
use reservation_worker.Samples.{expired_detail, expired_event, config, broken, fresh}

abbrev sent_before : String → List Call → Bool
sent_before id [] = false
sent_before id (release_hold timeout q ∷ past) = (q.reservation_id == id) || sent_before id past
sent_before id (_ ∷ past) = sent_before id past

abbrev once : Env
once = record broken {
  on_release_hold = λ past r.
      if sent_before r.reservation_id past then some (foreign "already released") else none;
}

IsReleased-sent_before :
    (id : String) (past : List Call) → IsReleased once id past → sent_before id past ≡ true
IsReleased-sent_before id [] h = absurd h
IsReleased-sent_before id (release_hold timeout q ∷ past) (inl (same, _)) =
    rw ((eq_iff q.reservation_id id).1 same) refl
IsReleased-sent_before id (release_hold timeout q ∷ past) (inr h) =
    ground (arith, IsReleased-sent_before id past h)
IsReleased-sent_before id (_ ∷ past) h = IsReleased-sent_before id past h

once-RefusesTwice : RefusesTwice once
once-RefusesTwice past q h = ground (arith, IsReleased-sent_before q.reservation_id past h)

pub expired_event-parsed : parse_event_detail expired_event ≡ Result.ok (expired expired_detail)
unfolding parse_event_detail decode_expired names string_value int_value strings_value
expired_event-parsed = refl

-- The hold is released, and the PATCH fails.
first-fails : (process_expired once config.reservation_api_base expired_detail fresh).0 ≢ none
unfolding process_expired client_release_hold update_reservation_status status_result is_success
first-fails p = absurd (cc)

first-IsReleased :
    IsReleased once expired_detail.reservation_id
      (process_expired once config.reservation_api_base expired_detail fresh).1.trace
unfolding process_expired client_release_hold update_reservation_status status_result is_success
first-IsReleased = inl (refl, refl)

worker_call-IsReleased_example :
    let u = (process_expired once config.reservation_api_base expired_detail fresh).1 in
    let (result, t) = handle_event once config (enough_fuel once config) expired_event 1 fresh in
    (result ≢ some none) × (select_calls is_http t.trace ≡ select_calls is_http u.trace)
worker_call-IsReleased_example =
    worker_call-IsReleased once config once-RefusesTwice expired_event expired_detail
      expired_event-parsed fresh first-fails first-IsReleased
