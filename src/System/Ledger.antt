-- ===== src/System/Ledger.antt =====
-- What became of the events that internal/worker accepted, by its counter EventsTotal.
use reservation_worker.Base.{
  Option, Error, ℕ, suc, ◌+◌, String, ◌==◌, Bool, Bool-cases, false, some, ◌≡◌, refl, arith, inl,
  inr, [], ◌∷◌, eq_iff,
}
use reservation_worker.Metrics.{CounterVec, counter_value, outcome_success, outcome_failed}
use reservation_worker.Config.{Config}
use reservation_worker.Runtime.{Env, State}
use reservation_worker.Dispatcher.{handle_event}
use reservation_worker.Dispatcher.Verdict.{enough_fuel}
use reservation_worker.Dispatcher.Counters.{Counted, worker_call-Counted, worker_call-foreign}
use reservation_worker.Event.{Event}
use reservation_worker.Event.Laws.{Kind, kind_of_type}
use reservation_worker.Pool.Order.{in_hand}
use reservation_worker.Pool.Accounting.{dropped, count, count-append, working, Reach-accounted}
use reservation_worker.Pool.Defs.{Pool, Step, finish, Reach, start, later}
use reservation_worker.System.Defs.{is_finish, Books, opened, idle, call}

abbrev pub is_of : String → Event → Bool
is_of event_type e = e.event_type == event_type

-- How often a call for an event of this type has ended.
abbrev pub ended : String → CounterVec → ℕ
ended event_type v =
    counter_value event_type outcome_success v + counter_value event_type outcome_failed v

Books-Reach : {n : ℕ} {cfg : Config} {s : Pool} {v : CounterVec} → Books n cfg s v → Reach n s
Books-Reach opened = start
Books-Reach (idle b st f) = later (Books-Reach b) st
Books-Reach (call e i b at env before adds) = later (Books-Reach b) (finish e i at)

Step-handled : {n : ℕ} {s t : Pool} (st : Step n s t) → is_finish st ≡ false → t.handled ≡ s.handled
Step-handled (finish e i at) f = absurd (cc)
Step-handled st f = refl

ended_once-at :
    {t event_type : String} {r : Option Error} {retries : ℕ} {v w : CounterVec}
    → t ≡ event_type
    → Counted t r retries v w
    → ended event_type w ≡ suc (ended event_type v)
ended_once-at is c = rw is at c.ended_once

module _ (event_type : String) {k : Kind} (known : kind_of_type event_type ≡ some k) where
  call-ended :
      (env : Env) (cfg : Config) (e : Event) (before : State)
      → let (result, after) = handle_event env cfg (enough_fuel env cfg) e 1 before in
        ended event_type after.metrics.events_total
        ≡ ended event_type before.metrics.events_total + count (is_of event_type) (e ∷ [])
  call-ended env cfg e before = elim (Bool-cases (e.event_type == event_type)) [
    | inl same ↦
        let is : e.event_type ≡ event_type = (eq_iff e.event_type event_type).0 same in
        let (r, retries, returned, runs, waits, counted) =
          worker_call-Counted env cfg e before {k = k} (rw is known) in
        rw same (omega (arith, ended_once-at is counted))
    | inr other ↦
        let untouched = λ (o : String). worker_call-foreign env cfg e before event_type o other in
        rw other (omega (arith, untouched outcome_success, untouched outcome_failed))
  ]

  pub Books-ended :
      {n : ℕ} {cfg : Config} {s : Pool} {v : CounterVec}
      → Books n cfg s v
      → count (is_of event_type) s.handled ≡ ended event_type v
  unfolding counter_value
  Books-ended opened = refl
  Books-ended (idle b st f) = rw (Step-handled st f) (Books-ended b)
  Books-ended {cfg} (call {s} {v} {w} e i b at env before adds) = omega (
    arith,
    Books-ended b,
    adds event_type outcome_success,
    adds event_type outcome_failed,
    call-ended env cfg e before,
    count-append (is_of event_type) s.handled (e ∷ []),
  )

  -- Of the accepted events of a known type, each is queued, in the hands of dispatch, given up after a
  -- timeout, being handled by a worker, or was counted once, as a success or as a failure.
  pub Books-accounted :
      {n : ℕ} {cfg : Config} {s : Pool} {v : CounterVec}
      → Books n cfg s v
      → let counted = count (is_of event_type) in
        counted s.accepted
        ≡ counted s.queue
          + counted (in_hand s.dispatcher)
          + counted (dropped s.settled)
          + working (is_of event_type) n s
          + counter_value event_type outcome_success v
          + counter_value event_type outcome_failed v
  Books-accounted {n} {s} b =
      omega (arith, Reach-accounted (is_of event_type) (Books-Reach b), Books-ended b)
