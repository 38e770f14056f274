-- ===== src/Dispatcher/Counters.antt =====
-- The counter events_total of internal/observability/metrics.go after a call of HandleEvent.
use reservation_worker.Base.{
  Option-cases, inl, inr, pos_part, ℕ, zero, suc, ◌+◌, String, ◌==◌, false, Option, none, some,
  Error, ◌≡◌, refl, arith, List, length, ◌∷◌, ◌∙◌,
}
use reservation_worker.Metrics.{
  CounterVec, counter_value, outcome_success, outcome_retried, outcome_failed,
  outcome_invalid_payload,
}
use reservation_worker.Metrics.Laws.{counter_value-same, counter_value-other, counter_value-foreign}
use reservation_worker.Event.{Event}
use reservation_worker.Event.Laws.{Kind, kind_of_type}
use reservation_worker.Config.{Config, get_backoff_duration}
use reservation_worker.Runtime.{Call, sleep, Env, State}
use reservation_worker.Handler.Outcomes.{select_calls, is_wait}
use reservation_worker.Dispatcher.Defs.{handle_event}
use reservation_worker.Dispatcher.Runs.{backoffs, retried, final_outcome}
use reservation_worker.Dispatcher.Verdict.{enough_fuel, handle_event-unknown, worker_call-Ends}

retried-value :
    (t : String) (n : ℕ) (v : CounterVec)
    → counter_value t outcome_retried (retried t n v) ≡ counter_value t outcome_retried v + n
retried-value t zero v = omega arith
retried-value t (suc n) v =
    omega
      (arith, retried-value t n ((t, outcome_retried) ∷ v), counter_value-same t outcome_retried v)

other-value :
    (t o : String) (n : ℕ) (v : CounterVec)
    → (outcome_retried == o) ≡ false
    → counter_value t o (retried t n v) ≡ counter_value t o v
other-value t o zero v h = refl
other-value t o (suc n) v h =
    other-value t o n ((t, outcome_retried) ∷ v) h ∙ counter_value-other t o outcome_retried v h

-- The counters of a type of event after a call that retried so often.
pub record Counted (event_type : String) (r : Option Error) (retries : ℕ) (v w : CounterVec)
    : Type 0 where
  pub retries_counted :
      counter_value event_type outcome_retried w
      ≡ counter_value event_type outcome_retried v + retries
  pub ended_once :
      counter_value event_type outcome_success w + counter_value event_type outcome_failed w
      ≡ suc (counter_value event_type outcome_success v + counter_value event_type outcome_failed v)
  pub as_answered :
      counter_value event_type (final_outcome r) w
      ≡ suc (counter_value event_type (final_outcome r) v)

Counted-retried :
    (t : String) (r : Option Error) (n : ℕ) (v : CounterVec)
    → Counted t r n v ((t, final_outcome r) ∷ retried t n v)
Counted-retried t none n v =
    let w : CounterVec = retried t n v in
    let a = counter_value-same t outcome_success w in
    let b = counter_value-other t outcome_failed outcome_success w refl in
    let c = counter_value-other t outcome_retried outcome_success w refl in
    let d = retried-value t n v in
    let e = other-value t outcome_success n v refl in
    let f = other-value t outcome_failed n v refl in
    record { retries_counted = omega arith; ended_once = omega arith; as_answered = omega arith }
Counted-retried t (some x) n v =
    let w : CounterVec = retried t n v in
    let a = counter_value-same t outcome_failed w in
    let b = counter_value-other t outcome_success outcome_failed w refl in
    let c = counter_value-other t outcome_retried outcome_failed w refl in
    let d = retried-value t n v in
    let e = other-value t outcome_success n v refl in
    let f = other-value t outcome_failed n v refl in
    record { retries_counted = omega arith; ended_once = omega arith; as_answered = omega arith }

length-backoffs :
    (cfg : Config) (attempt n : ℕ) (before : List Call)
    → length (backoffs cfg attempt n before) ≡ length before + n
length-backoffs cfg attempt zero before = omega arith
length-backoffs cfg attempt (suc n) before =
    omega (
      arith,
      length-backoffs cfg (suc attempt) n (sleep (get_backoff_duration cfg attempt) ∷ before),
    )

-- After a worker's call for an event of a known type, the counter retried of the type has grown by
-- the number of retries, which is one less than the handler's runs, and as many as the waits; of
-- success and failed one has grown by one: the one that tells whether the call returned an error.
pub worker_call-Counted :
    (env : Env) (cfg : Config) (event : Event) (s : State) {k : Kind}
    → kind_of_type event.event_type ≡ some k
    → let (result, t) = handle_event env cfg (enough_fuel env cfg) event 1 s in
      (r : Option Error) × (retries : ℕ) × (result ≡ some r)
      × (length t.metrics.processing_duration ≡ length s.metrics.processing_duration + retries + 1)
      × (length (select_calls is_wait t.trace) ≡ length (select_calls is_wait s.trace) + retries)
      × Counted event.event_type r retries s.metrics.events_total t.metrics.events_total
worker_call-Counted env cfg event s h =
    let run = worker_call-Ends env cfg event s h in
    (
      run.result,
      run.retries,
      run.returned,
      run.ran.measured,
      rw run.ran.waited (length-backoffs cfg 1 run.retries (select_calls is_wait s.trace)),
      rw run.ran.counted
          (Counted-retried event.event_type run.result run.retries s.metrics.events_total),
    )

retried-foreign :
    (t l o : String) (n : ℕ) (v : CounterVec)
    → (t == l) ≡ false
    → counter_value l o (retried t n v) ≡ counter_value l o v
retried-foreign t l o zero v h = refl
retried-foreign t l o (suc n) v h =
    retried-foreign t l o n ((t, outcome_retried) ∷ v) h
    ∙ counter_value-foreign l o t outcome_retried v h

-- The counters of any other type are left alone.
pub worker_call-foreign :
    (env : Env) (cfg : Config) (event : Event) (s : State) (l o : String)
    → (event.event_type == l) ≡ false
    → let (result, t) = handle_event env cfg (enough_fuel env cfg) event 1 s in
      counter_value l o t.metrics.events_total ≡ counter_value l o s.metrics.events_total
worker_call-foreign env cfg event s l o h =
    let v = s.metrics.events_total in
    let foreign = counter_value-foreign l o event.event_type in
    elim (Option-cases (kind_of_type event.event_type)) [
      | inl unknown ↦
          rw (handle_event-unknown env cfg (pos_part cfg.max_retries) 1 event s unknown)
            (foreign outcome_invalid_payload v h)
      | inr (k, known) ↦
          let run = worker_call-Ends env cfg event s known in
          rw run.ran.counted (
            foreign (final_outcome run.result) (retried event.event_type run.retries v) h
            ∙ retried-foreign event.event_type l o run.retries v h)
    ]
