-- ===== src/System/Whole.antt =====
-- The poller, the pool and HandleEvent of internal/worker together: from the messages that are deleted
-- to the counter EventsTotal.
use reservation_worker.Base.{ℕ, ◌+◌, some, String, ◌≡◌, arith, length}
use reservation_worker.Metrics.{CounterVec, counter_value, outcome_success, outcome_failed}
use reservation_worker.Config.{Config}
use reservation_worker.Runtime.{Env, State}
use reservation_worker.Event.Laws.{Kind, kind_of_type}
use reservation_worker.Handler.Outcomes.{select_calls}
use reservation_worker.Poller.Offer.{is_delete}
use reservation_worker.Pool.Defs.{Pool}
use reservation_worker.Pool.Order.{in_hand}
use reservation_worker.Pool.Accounting.{dropped, count, working}
use reservation_worker.Pool.Serves.{IsWaiting, waiting-handled}
use reservation_worker.Pool.Prompt.{InTime}
use reservation_worker.System.Defs.{Books}
use reservation_worker.System.Ledger.{is_of, Books-ended, Books-accounted}
use reservation_worker.System.Joint.{Joint, Joint-deleted, Joint-accepted}

module _ (event_type : String) {k : Kind} (known : kind_of_type event_type ≡ some k) {n : ℕ}
    {env : Env} {cfg : Config} {a : Pool} {s : State} {v : CounterVec} (j : Joint n env cfg a s)
    (b : Books n cfg a v) where
  -- As many messages were deleted from the queue of SQS as events were handed over, and of those of a
  -- known type, each is queued, in the hands of dispatch, given up after a timeout, being handled by
  -- a worker, or was counted once, as a success or as a failure.
  pub deleted-counted :
      let counted = count (is_of event_type) in
      (length (select_calls is_delete s.trace) ≡ length s.events_chan)
      × (counted s.events_chan
          ≡ counted a.queue
            + counted (in_hand a.dispatcher)
            + counted (dropped a.settled)
            + working (is_of event_type) n a
            + counter_value event_type outcome_success v
            + counter_value event_type outcome_failed v)
  deleted-counted = (
    Joint-deleted j,
    omega (arith, Joint-accepted (is_of event_type) j, Books-accounted event_type known b),
  )

  -- When dispatch and all workers wait, no timeout having fired, the two outcomes of a known type add
  -- up to the events of that type that the poller handed over: none is missing, and none is counted
  -- twice.
  pub waiting-counted :
      InTime n a
      → IsWaiting n a
      → count (is_of event_type) s.events_chan
        ≡ counter_value event_type outcome_success v + counter_value event_type outcome_failed v
  waiting-counted t waiting = omega (
    arith,
    Joint-accepted (is_of event_type) j,
    waiting-handled (is_of event_type) t waiting,
    Books-ended event_type known b,
  )
