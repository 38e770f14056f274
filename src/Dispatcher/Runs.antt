-- ===== src/Dispatcher/Runs.antt =====
-- HandleEvent of internal/worker/dispatcher.go as a run of attempts: how many, the waits, the counters.
use reservation_worker.Base.{
  ℕ, zero, suc, ◌+◌, String, Option, none, some, Bool-cases, List, ◌∷◌, Error, ◌≡◌, ◌≢◌, ◌⊎◌, inl,
  inr, refl, arith, length, pos, ◌≤ℤ◌, ◌<ℤ◌, leb_ℤ,
}
use reservation_worker.Event.{Event}
use reservation_worker.Metrics.{
  CounterVec, outcome_success, outcome_retried, outcome_failed, record_event_processed,
  record_event_latency,
}
use reservation_worker.Config.{Config, get_backoff_duration}
use reservation_worker.Runtime.{Call, sleep, Env, State, M}
use reservation_worker.Handler.Outcomes.{select_calls, is_wait}
use reservation_worker.Dispatcher.Defs.{route, after_attempt, handle_event}
use reservation_worker.Dispatcher.Quiet.{IsQuiet, route-IsQuiet}

-- The waits of `n` retries from `attempt` on, the last one first, in front of the earlier ones.
abbrev pub backoffs : Config → ℕ → ℕ → List Call → List Call
backoffs cfg attempt zero before = before
backoffs cfg attempt (suc n) before =
    backoffs cfg (suc attempt) n (sleep (get_backoff_duration cfg attempt) ∷ before)

-- The increments of the event counter by `n` retries.
abbrev pub retried : String → ℕ → CounterVec → CounterVec
retried event_type zero before = before
retried event_type (suc n) before = retried event_type n ((event_type, outcome_retried) ∷ before)

abbrev pub final_outcome : Option Error → String
final_outcome none = outcome_success
final_outcome (some e) = outcome_failed

-- From `attempt` on the handler was run `retries + 1` times, and `r` is what the last run returned.
pub record Ran (cfg : Config) (event_type : String) (attempt retries : ℕ) (s : State)
    (r : Option Error) (t : State) : Type 0 where
  pub within : (retries ≡ 0) ⊎ (pos (attempt + retries) ≤ℤ cfg.max_retries)
  pub exhausted : (r ≡ none) ⊎ (cfg.max_retries ≤ℤ pos (attempt + retries))
  pub counted :
      t.metrics.events_total
      ≡ (event_type, final_outcome r) ∷ retried event_type retries s.metrics.events_total
  pub latency : t.metrics.latency_histogram ≡ event_type ∷ s.metrics.latency_histogram
  pub measured :
      length t.metrics.processing_duration ≡ length s.metrics.processing_duration + retries + 1
  pub waited :
      select_calls is_wait t.trace ≡ backoffs cfg attempt retries (select_calls is_wait s.trace)
  pub events : t.events_chan ≡ s.events_chan

-- The state in which the next attempt starts.
abbrev pub after_wait : Config → String → ℕ → State → State
after_wait cfg event_type attempt t = record t {
  metrics = record_event_processed event_type outcome_retried t.metrics;
  trace = sleep (get_backoff_duration cfg attempt) ∷ t.trace;
}

-- The state after the last attempt, with its outcome counted.
abbrev pub after_end : String → Option Error → State → State
after_end event_type r t = record t {
  metrics =
      record_event_latency event_type
        (record_event_processed event_type (final_outcome r) t.metrics);
}

-- `Tries r t attempt s`: from this attempt on, in the state `s`, the attempts end with the result `r`
-- in the state `t`. One runs without an error, or fails as the last one, or fails before the next.
pub data Tries (cfg : Config) (event_type : String) (handle : M (Option Error)) (r : Option Error)
    (t : State) : ℕ → State → Type 0 where
  ended_well :
      {attempt : ℕ} {s : State}
      → (handle s).0 ≡ none
      → r ≡ none
      → t ≡ after_end event_type r (handle s).1
      → Tries cfg event_type handle r t attempt s
  gave_up :
      {attempt : ℕ} {s : State} (e : Error)
      → (handle s).0 ≡ some e
      → cfg.max_retries ≤ℤ pos attempt
      → r ≡ some e
      → t ≡ after_end event_type r (handle s).1
      → Tries cfg event_type handle r t attempt s
  tried_again :
      {attempt : ℕ} {s : State} (e : Error)
      → (handle s).0 ≡ some e
      → pos attempt <ℤ cfg.max_retries
      → Tries cfg event_type handle r t
          (suc attempt)
          (after_wait cfg event_type attempt (handle s).1)
      → Tries cfg event_type handle r t attempt s

-- A call of HandleEvent that ends. `result` is what the handler answered in the state `last`, where
-- it was run last; a first run without an error is the only one.
pub record Ends (cfg : Config) (event_type : String) (handle : M (Option Error)) (attempt : ℕ)
    (s : State) (out : Option (Option Error) × State) : Type 0 where
  pub result : Option Error
  pub retries : ℕ
  pub last : State
  pub returned : out.0 ≡ some result
  pub tries : Tries cfg event_type handle result out.1 attempt s
  pub answered : (handle last).0 ≡ result
  pub at_once : ((handle s).0 ≢ none) ⊎ (retries ≡ 0)
  pub ran : Ran cfg event_type attempt retries s result out.1

module _ (env : Env) (cfg : Config) (event_type : String) (handle : M (Option Error)) (attempt : ℕ)
    (s : State) (q : IsQuiet s (handle s).1) where
  abbrev next_state : State
  next_state = after_wait cfg event_type attempt (handle s).1

  Ends-again :
      {out : Option (Option Error) × State} {x : Error}
      → (handle s).0 ≡ some x
      → pos attempt <ℤ cfg.max_retries
      → Ends cfg event_type handle (suc attempt) next_state out
      → Ends cfg event_type handle attempt s out
  Ends-again {x} failed_once less h = record {
    result = h.result;
    tries = tried_again x failed_once less h.tries;
    retries = suc h.retries;
    last = h.last;
    returned = h.returned;
    answered = h.answered;
    at_once = inl (ground arith);
    ran = record {
      within = inr (ground arith);
      exhausted = ground arith;
      counted = ground arith;
      latency = ground arith;
      measured = ground arith;
      waited = ground arith;
      events = ground arith;
    };
  }

  Ends-now :
      {out : Option (Option Error) × State}
      → out.0 ≡ some (handle s).0
      → Tries cfg event_type handle (handle s).0 out.1 attempt s
      → Ran cfg event_type attempt 0 s (handle s).0 out.1
      → Ends cfg event_type handle attempt s out
  Ends-now returned tries ran = record {
    result = (handle s).0;
    tries = tries;
    retries = 0;
    last = s;
    returned = returned;
    answered = refl;
    at_once = inr refl;
    ran = ran;
  }

  after_attempt-Ends :
      (again : M (Option (Option Error))) (e : Option Error)
      → (handle s).0 ≡ e
      → (pos attempt <ℤ cfg.max_retries
          → Ends cfg event_type handle (suc attempt) next_state (again next_state))
      → Ends cfg event_type handle attempt s
          (after_attempt env cfg event_type attempt again e (handle s).1)
  unfolding after_attempt
  after_attempt-Ends again none e h =
      Ends-now (ground arith) (ended_well e e (ground arith)) (ground arith)
  after_attempt-Ends again (some x) e h = elim (Bool-cases (leb_ℤ cfg.max_retries (pos attempt))) [
    | inl last ↦
        rw last
          (Ends-now (ground arith) (gave_up x e (ground arith) e (ground arith)) (ground arith))
    | inr more ↦
        let less : pos attempt <ℤ cfg.max_retries = ground arith in
        rw more (Ends-again e less (h less))
  ]

module _ (env : Env) (cfg : Config) (event : Event) {handle : M (Option Error)}
    (routed : route env cfg event ≡ some handle) where
  handle_event-suc :
      (fuel attempt : ℕ) (s : State)
      → handle_event env cfg (suc fuel) event attempt s
        ≡ after_attempt env cfg event.event_type attempt
            (handle_event env cfg fuel event (suc attempt))
            (handle s).0
            (handle s).1
  unfolding handle_event
  handle_event-suc fuel attempt s = rw (routed, handle_event)

  step-Ends :
      (fuel attempt : ℕ) (s : State)
      → (pos attempt <ℤ cfg.max_retries
          → let t = after_wait cfg event.event_type attempt (handle s).1 in
            Ends cfg event.event_type handle
              (suc attempt)
              t
              (handle_event env cfg fuel event (suc attempt) t))
      → Ends cfg event.event_type handle attempt s (handle_event env cfg (suc fuel) event attempt s)
  step-Ends fuel attempt s h = rw (handle_event-suc fuel attempt s) (
      after_attempt-Ends env cfg event.event_type handle attempt s
        (route-IsQuiet env cfg event routed s) (handle_event env cfg fuel event (suc attempt))
        (handle s).0 refl h)

  -- With fuel for every attempt that the configuration allows, a run ends.
  pub handle_event-Ends :
      (fuel attempt : ℕ) (s : State)
      → cfg.max_retries ≤ℤ pos (attempt + fuel)
      → Ends cfg event.event_type handle attempt s (handle_event env cfg (suc fuel) event attempt s)
  handle_event-Ends zero attempt s enough = step-Ends zero attempt s (λ less. absurd (omega arith))
  handle_event-Ends (suc fuel) attempt s enough =
      step-Ends (suc fuel) attempt s (λ less. handle_event-Ends fuel (suc attempt) _ (omega arith))
