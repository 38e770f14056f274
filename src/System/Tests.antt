-- ===== src/System/Tests.antt =====
-- One round of the poller, whose one event the pool queues, and what became of it.
use reservation_worker.Base.{Bool, ◌==◌, ◌+◌, ◌≡◌, refl, arith, length, [], ◌∷◌}
use reservation_worker.Json.{names, string_value}
use reservation_worker.Event.{Event, decode_event}
use reservation_worker.Event.Decode.{zero_event}
use reservation_worker.Runtime.{State}
use reservation_worker.Handler.Outcomes.{select_calls}
use reservation_worker.Poller.{poll_once, after_poll, process_message, delete, send, prepare}
use reservation_worker.Poller.Offer.{is_delete}
use reservation_worker.Pool.Order.{in_hand}
use reservation_worker.Pool.Accounting.{dropped, count, working}
use reservation_worker.Pool.Defs.{
  selecting, handling, registering, delivered, receive, pick, deliver, finish, Pool, started,
  update, enqueue, register,
}
use reservation_worker.System.Joint.{Joint, begun, polls, at_rest, alone, takes}
use reservation_worker.Metrics.{CounterVec, counter_value, outcome_success, outcome_failed}
use reservation_worker.Event.Laws.{Kind}
use reservation_worker.Dispatcher.{handle_event}
use reservation_worker.Dispatcher.Verdict.{enough_fuel}
use reservation_worker.Pool.Prompt.{InTime, start_in_time, later_in_time}
use reservation_worker.Pool.Serves.{IsWaiting}
use reservation_worker.System.Defs.{Adds, Books, opened, idle, call}
use reservation_worker.System.Ledger.{is_of}
use reservation_worker.System.Whole.{deleted-counted, waiting-counted}
use reservation_worker.Samples.{calm, config, fresh}

abbrev approval : Event
approval = record zero_event { id = "m1"; event_type = "payment.approved"; trace_id = "t1" }

abbrev polled : State
polled = (after_poll calm config (poll_once calm config fresh).0 (poll_once calm config fresh).1).1

abbrev queued : Pool
queued = record (started 1) {
  queue = approval ∷ [];
  idle = 0 ∷ [];
  workers = update (started 1).workers 0 selecting;
  accepted = approval ∷ [];
}

-- Of the two messages one is an event.
polled_events : polled.events_chan ≡ approval ∷ []
unfolding poll_once after_poll process_message delete send prepare decode_event names string_value
polled_events = refl

queued-Joint : Joint 1 calm config queued polled
queued-Joint = polls (approval ∷ []) (begun fresh refl refl) refl polled_events (
    takes approval (alone at_rest (register 0 refl (omega arith)) refl)
      (enqueue approval (omega arith)) refl)

abbrev is_approval : Event → Bool
is_approval e = e.event_type == "payment.approved"

-- The worker has handled that event, and waits again.
abbrev served : Pool
served = record queued {
  queue = [];
  workers = update (update (update queued.workers 0 (handling approval)) 0 registering) 0 selecting;
  settled = (approval, delivered 0) ∷ [];
  handled = approval ∷ [];
}

served-Joint : Joint 1 calm config served polled
served-Joint =
    let t₁ = alone at_rest (register 0 refl (omega arith)) refl in
    let t₂ = takes approval t₁ (enqueue approval (omega arith)) refl in
    let t₃ = alone t₂ (receive approval [] refl refl) refl in
    let t₄ = alone t₃ (pick approval 0 [] refl refl) refl in
    let t₅ = alone t₄ (deliver approval 0 refl refl) refl in
    let t₆ = alone t₅ (finish approval 0 refl) refl in
    polls (approval ∷ []) (begun fresh refl refl) refl polled_events
      (alone t₆ (register 0 refl (omega arith)) refl)

-- What the worker's call adds to EventsTotal.
abbrev counted : CounterVec
counted =
    (handle_event calm config (enough_fuel calm config) approval 1 fresh).1.metrics.events_total

counted-Adds : Adds [] counted [] counted
counted-Adds l o = omega arith

served-Books : Books 1 config served counted
served-Books =
    let b₁ = idle opened (register 0 refl (omega arith)) refl in
    let b₂ = idle b₁ (enqueue approval (omega arith)) refl in
    let b₃ = idle b₂ (receive approval [] refl refl) refl in
    let b₄ = idle b₃ (pick approval 0 [] refl refl) refl in
    let b₅ = idle b₄ (deliver approval 0 refl refl) refl in
    let b₆ = call approval 0 b₅ refl calm fresh counted-Adds in
    idle b₆ (register 0 refl (omega arith)) refl

served-InTime : InTime 1 served
served-InTime =
    let t₁ = later_in_time start_in_time (register 0 refl (omega arith)) refl in
    let t₂ = later_in_time t₁ (enqueue approval (omega arith)) refl in
    let t₃ = later_in_time t₂ (receive approval [] refl refl) refl in
    let t₄ = later_in_time t₃ (pick approval 0 [] refl refl) refl in
    let t₅ = later_in_time t₄ (deliver approval 0 refl refl) refl in
    let t₆ = later_in_time t₅ (finish approval 0 refl) refl in
    later_in_time t₆ (register 0 refl (omega arith)) refl

served-IsWaiting : IsWaiting 1 served
served-IsWaiting = record { queue = refl; dispatcher = refl; workers = λ i l. ground arith }

deleted-counted_example :
    let approvals = count (is_of "payment.approved") in
    (length (select_calls is_delete polled.trace) ≡ length polled.events_chan)
    × (approvals polled.events_chan
        ≡ approvals served.queue
          + approvals (in_hand served.dispatcher)
          + approvals (dropped served.settled)
          + working (is_of "payment.approved") 1 served
          + counter_value "payment.approved" outcome_success counted
          + counter_value "payment.approved" outcome_failed counted)
deleted-counted_example =
    deleted-counted "payment.approved" {k = Kind.approval} refl served-Joint served-Books

waiting-counted_example :
    count (is_of "payment.approved") polled.events_chan
    ≡ counter_value "payment.approved" outcome_success counted
      + counter_value "payment.approved" outcome_failed counted
waiting-counted_example =
    waiting-counted "payment.approved" {k = Kind.approval} refl served-Joint served-Books
      served-InTime served-IsWaiting
