-- ===== src/Dispatcher/Verdict.antt =====
-- HandleEvent as Worker.Start of internal/worker/worker.go calls it, from attempt 1 on.
use reservation_worker.Base.{
  ℕ, suc, ◌+◌, ◌-◌, ◌≤◌, ap, Option, none, some, Option-cases, wrapped, Error, unknown_event_type,
  err, ◌≡◌, ◌⊎◌, inl, inr, arith, length, pos, pos_part, ◌≤ℤ◌,
}
use reservation_worker.Event.{Event, parse_event_detail}
use reservation_worker.Event.Laws.{Kind, expiry, approval, failure, kind_of_type}
use reservation_worker.Metrics.{outcome_invalid_payload, record_event_processed}
use reservation_worker.Config.{Config}
use reservation_worker.Runtime.{Env, State, M}
use reservation_worker.Handler.Kinds.{handle}
use reservation_worker.Handler.{handle_expired, handle_approved, handle_failed}
use reservation_worker.Dispatcher.Defs.{route, handle_event}
use reservation_worker.Dispatcher.Runs.{Ends, backoffs, handle_event-Ends}
use reservation_worker.Handler.Outcomes.{select_calls, is_wait}
use Prim.Native.Nat.{max}

module _ (env : Env) (cfg : Config) where
  route-unknown :
      (event : Event) → kind_of_type event.event_type ≡ none → route env cfg event ≡ none
  unfolding route
  route-unknown event h = ground arith

  -- The handler of each kind of detail.
  abbrev pub handler_of : Kind → Event → M (Option Error)
  handler_of = handle env cfg.reservation_api_base

  -- An event of a known type goes to the handler of the detail that its type names.
  pub route-known :
      (event : Event) (k : Kind)
      → kind_of_type event.event_type ≡ some k
      → route env cfg event ≡ some (handler_of k event)
  unfolding route
  route-known event k h = ground arith

  -- An event of any other type is counted and refused at once: no call, no wait and no retry.
  pub handle_event-unknown :
      (fuel attempt : ℕ) (event : Event) (s : State)
      → kind_of_type event.event_type ≡ none
      → handle_event env cfg (suc fuel) event attempt s ≡ (
        some (some (unknown_event_type event.event_type)),
        record s {
          metrics = record_event_processed event.event_type outcome_invalid_payload s.metrics;
        },
      )
  unfolding handle_event
  handle_event-unknown fuel attempt event s h = rw (route-unknown event h, handle_event)

  -- The fuel that a worker's call is given here: one unit for each attempt, and one more.
  abbrev pub enough_fuel : ℕ
  enough_fuel = suc (pos_part cfg.max_retries)

  max_retries-le : (attempt : ℕ) → cfg.max_retries ≤ℤ pos (attempt + pos_part cfg.max_retries)
  max_retries-le attempt = ground arith

  -- A worker's call for an event of a known type is a run of attempts, and returns the answer of
  -- the last one: an attempt without an error ends it, an error ends it when the attempts are
  -- used up, and otherwise is followed by the next attempt in the state that the count and the
  -- sleep leave. It retries only within max_retries and not after a first attempt without an
  -- error. Each retry waits for the backoff of its attempt, counted from 1, and is counted as
  -- retried; the end is counted as success or failed, with one latency.
  pub worker_call-Ends :
      (event : Event) (s : State) {k : Kind}
      → kind_of_type event.event_type ≡ some k
      → Ends cfg event.event_type
          (handler_of k event)
          1
          s
          (handle_event env cfg enough_fuel event 1 s)
  worker_call-Ends event s {k} h =
      handle_event-Ends env cfg event (route-known event k h) (pos_part cfg.max_retries) 1 s
        (max_retries-le 1)

  -- A worker's call of HandleEvent returns, whatever the event, the configuration and the answers of
  -- the environment: enough_fuel does not run out.
  pub handle_event_total :
      (event : Event) (s : State)
      → (r : Option Error) × ((handle_event env cfg enough_fuel event 1 s).0 ≡ some r)
  handle_event_total event s = elim (Option-cases (kind_of_type event.event_type)) [
    | inl unknown ↦ (
      some (unknown_event_type event.event_type),
      ap (λ p. p.0) (handle_event-unknown (pos_part cfg.max_retries) 1 event s unknown),
    )
    | inr (k, known) ↦ let run = worker_call-Ends event s known in (run.result, run.returned)
  ]

  -- A worker's call for an event of a known type runs the handler at least once, at most
  -- max_retries times (once if that is less than one), and exactly that often if it returns an
  -- error.
  pub worker_call-attempts :
      (event : Event) (s : State) {k : Kind}
      → kind_of_type event.event_type ≡ some k
      → let (result, t) = handle_event env cfg enough_fuel event 1 s in
        (n : ℕ) × (length t.metrics.processing_duration ≡ length s.metrics.processing_duration + n)
        × (1 ≤ n)
        × (n ≤ max 1 (pos_part cfg.max_retries))
        × ((result ≡ some none) ⊎ (n ≡ max 1 (pos_part cfg.max_retries)))
  worker_call-attempts event s h =
      let run = worker_call-Ends event s h in
      (run.retries + 1, ground arith, ground arith, ground arith, ground arith)

  handler_of-malformed :
      (k : Kind) (event : Event) {x : Error} (s : State)
      → parse_event_detail event ≡ err x
      → (handler_of k event s).0 ≡ some (wrapped "failed to parse event detail" x)
  unfolding handle_expired handle_approved handle_failed
  handler_of-malformed expiry event s h = ground arith
  handler_of-malformed approval event s h = ground arith
  handler_of-malformed failure event s h = ground arith

  -- With at least one attempt allowed, a worker's call for an event of a known type whose detail
  -- cannot be parsed tries again until the attempts are used up, with every wait, and returns the
  -- error of the parse.
  pub worker_call-malformed :
      (event : Event) (s : State) {k : Kind} {x : Error}
      → kind_of_type event.event_type ≡ some k
      → parse_event_detail event ≡ err x
      → pos 1 ≤ℤ cfg.max_retries
      → let (result, t) = handle_event env cfg enough_fuel event 1 s in
        (result ≡ some (some (wrapped "failed to parse event detail" x)))
        × (length t.metrics.processing_duration
            ≡ length s.metrics.processing_duration + pos_part cfg.max_retries)
        × (select_calls is_wait t.trace
            ≡ backoffs cfg 1 (pos_part cfg.max_retries - 1) (select_calls is_wait s.trace))
  worker_call-malformed event s {k} h bad some_retries =
      let run = worker_call-Ends event s h in
      let answer = handler_of-malformed k event run.last bad in
      let exact : run.retries ≡ pos_part cfg.max_retries - 1 = ground arith in
      (ground arith, ground arith, rw (← exact) run.ran.waited)
