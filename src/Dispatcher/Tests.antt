-- ===== src/Dispatcher/Tests.antt =====
-- Runs of HandleEvent, and the theorems about it at concrete events.
use reservation_worker.Base.{
  ℕ, ◌+◌, ◌-◌, ◌*◌, ◌≤◌, Option, none, some, Error, Result, foreign, wrapped, ◌∷◌, [], length, ◌≡◌,
  ◌⊎◌, refl, arith, pos, pos_part,
}
use reservation_worker.Event.{expired, parse_event_detail, decode_approved}
use reservation_worker.Event.Laws.{approval, expiry}
use reservation_worker.Config.{get_backoff_duration}
use reservation_worker.Runtime.{sleep}
use reservation_worker.Handler.{handle_expired, handle_approved}
use reservation_worker.Handler.Outcomes.{select_calls, is_wait}
use reservation_worker.Dispatcher.Defs.{route, handle_event}
use reservation_worker.Dispatcher.Runs.{Ends, backoffs}
use reservation_worker.Dispatcher.Verdict.{
  enough_fuel, handler_of, worker_call-Ends, handle_event_total, worker_call-malformed,
}
use reservation_worker.Dispatcher.Counters.{Counted, worker_call-Counted}
use reservation_worker.Dispatcher.Slept.{slept, backoff_units, worker_call-slept}
use reservation_worker.Handler.Order.{downstream}
use reservation_worker.Dispatcher.Effects.{Sends, worker_call-Sends}
use reservation_worker.Dispatcher.StuckTests.{expired_event-parsed}
use reservation_worker.Samples.{
  expired_detail, expired_event, empty_event, config, calm, broken, fresh,
}

handle_event_total_example :
    (r : Option Error) × ((handle_event broken config
        (enough_fuel broken config)
        expired_event
        1
        fresh).0
      ≡ some r)
handle_event_total_example = handle_event_total broken config expired_event fresh

worker_call-Ends_example :
    Ends config "reservation.expired"
      (handler_of broken config expiry expired_event)
      1
      fresh
      (handle_event broken config (enough_fuel broken config) expired_event 1 fresh)
worker_call-Ends_example = worker_call-Ends broken config expired_event fresh {k = expiry} refl

worker_call-Counted_example :
    let (result, t) =
      handle_event broken config (enough_fuel broken config) expired_event 1 fresh in
    (r : Option Error) × (retries : ℕ) × (result ≡ some r)
    × (length t.metrics.processing_duration
        ≡ length fresh.metrics.processing_duration + retries + 1)
    × (length (select_calls is_wait t.trace) ≡ length (select_calls is_wait fresh.trace) + retries)
    × Counted "reservation.expired" r retries [] t.metrics.events_total
worker_call-Counted_example =
    worker_call-Counted broken config expired_event fresh {k = expiry} refl

empty_event-malformed :
    parse_event_detail empty_event ≡ Result.err (foreign "unexpected end of JSON input")
unfolding parse_event_detail decode_approved
empty_event-malformed = refl

worker_call-malformed_example :
    let (result, t) = handle_event calm config (enough_fuel calm config) empty_event 1 fresh in
    (result
      ≡ some
          (some (wrapped "failed to parse event detail" (foreign "unexpected end of JSON input"))))
    × (length t.metrics.processing_duration
        ≡ length fresh.metrics.processing_duration + pos_part config.max_retries)
    × (select_calls is_wait t.trace
        ≡ backoffs config 1 (pos_part config.max_retries - 1) (select_calls is_wait fresh.trace))
worker_call-malformed_example =
    worker_call-malformed calm config empty_event fresh {k = approval} refl empty_event-malformed
      (omega arith)

-- The waits of an event whose three attempts fail.
failing_waits :
    select_calls is_wait (handle_event calm config 4 empty_event 1 fresh).1.trace
    ≡ sleep (pos 4000000000) ∷ sleep (pos 2000000000) ∷ []
unfolding handle_event route handle_expired handle_approved parse_event_detail decode_approved
    get_backoff_duration
failing_waits = refl

worker_call-slept_example :
    let (result, t) =
      handle_event broken config (enough_fuel broken config) expired_event 1 fresh in
    (retries : ℕ) × (slept t.trace ≡ slept fresh.trace + 1000 * backoff_units retries * 1000000)
    × (retries ≤ pos_part config.max_retries - 1)
    × ((result ≡ some none) ⊎ (retries ≡ pos_part config.max_retries - 1))
worker_call-slept_example =
    worker_call-slept config 1000 refl (omega arith) broken expired_event fresh {k = expiry} refl

-- With five attempts and a base of one second a failing event sleeps for thirty seconds.
four_retries : 1000 * backoff_units 4 * 1000000 ≡ 30000000000
four_retries = refl

worker_call-Sends_example :
    let (result, t) =
      handle_event broken config (enough_fuel broken config) expired_event 1 fresh in
    (r : Option Error) × (retries : ℕ) × (result ≡ some r)
    × (retries ≤ pos_part config.max_retries - 1)
    × ((r ≡ none) ⊎ (retries ≡ pos_part config.max_retries - 1))
    × Sends broken config.reservation_api_base
        (expired expired_detail)
        r
        (downstream t)
        retries
        (downstream fresh)
worker_call-Sends_example =
    worker_call-Sends broken config expired_event (expired expired_detail) expired_event-parsed
      fresh
