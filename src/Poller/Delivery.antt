-- ===== src/Poller/Delivery.antt =====
-- pollOnce of internal/worker/poller.go: which messages are offered, taken and deleted.
use reservation_worker.Base.{
  Option, none, some, List, [], ◌∷◌, Error, ok, err, ◌≡◌, inl, inr, refl, arith, wrapped,
}
use reservation_worker.Config.{Config}
use reservation_worker.Runtime.{Message, receive_message, Env, State}
use reservation_worker.Poller.Defs.{
  process_message, delete, process_all, after_receive, receive_input, poll_once,
}
use reservation_worker.Poller.Offer.{
  Refusal, none_left, skip, keep, Delivered, Passed, Taken, process_message-cases,
}

module _ (env : Env) (cfg : Config) where
  process_all-refused :
      (m : Message) (ms : List Message) (s : State) {x : Error}
      → (process_message env cfg m s).0 ≡ some x
      → process_all env cfg (m ∷ ms) s ≡ process_all env cfg ms (process_message env cfg m s).1
  unfolding process_all
  process_all-refused m ms s h = rw (h, process_all)

  process_all-taken :
      (m : Message) (ms : List Message) (s : State)
      → (process_message env cfg m s).0 ≡ none
      → process_all env cfg (m ∷ ms) s
        ≡ process_all env cfg ms (delete env cfg m (process_message env cfg m s).1).1
  unfolding process_all
  process_all-taken m ms s h = rw (h, process_all)

  Delivered-skip :
      {m : Message} {ms : List Message} {s t u : State}
      → Refusal env cfg m
      → Passed env cfg m s t
      → Delivered env cfg ms t u
      → Delivered env cfg (m ∷ ms) s u
  Delivered-skip why same d = record {
    offered = ground arith;
    taken = d.taken;
    kept = skip why d.kept;
    deleted = ground arith;
    events = ground arith;
    metrics = ground arith;
  }

  Delivered-keep :
      {m : Message} {ms : List Message} {s u : State} (out : Option Error × State)
      → Taken env cfg m s out
      → Delivered env cfg ms (delete env cfg m out.1).1 u
      → Delivered env cfg (m ∷ ms) s u
  unfolding delete
  Delivered-keep {m} out k d = record {
    offered = ground arith;
    taken = m ∷ d.taken;
    kept = keep k.event k.past k.prepared k.chosen d.kept;
    deleted = ground arith;
    events = ground arith;
    metrics = ground arith;
  }

  process_all-Delivered :
      (messages : List Message) (s : State)
      → Delivered env cfg messages s (process_all env cfg messages s).1
  unfolding process_all
  process_all-Delivered [] s = record {
    offered = refl;
    taken = [];
    kept = none_left;
    deleted = refl;
    events = refl;
    metrics = refl;
  }
  process_all-Delivered (m ∷ ms) s = elim (process_message-cases env cfg m s) [
    | inl k ↦
        rw (process_all-taken m ms s k.accepted)
          (Delivered-keep (process_message env cfg m s) k (process_all-Delivered ms _))
    | inr r ↦
        rw (process_all-refused m ms s r.refused)
          (Delivered-skip r.why r.same (process_all-Delivered ms _))
  ]

  abbrev received : State → State
  received s = record s { trace = receive_message (receive_input env cfg) ∷ s.trace }

  Delivered-received :
      {messages : List Message} {s t : State}
      → Delivered env cfg messages (received s) t
      → Delivered env cfg messages s t
  Delivered-received d = record {
    offered = d.offered;
    taken = d.taken;
    kept = d.kept;
    deleted = d.deleted;
    events = d.events;
    metrics = d.metrics;
  }

  -- When ReceiveMessage returns messages, pollOnce returns no error and offers the pool the event
  -- of each message that has one, in order and once. The messages of which the pool took the
  -- event are deleted, each once and in order, and exactly their events enter the channel; every
  -- other message is passed over, because it has no event or the pool did not take it.
  pub poll_once-Delivered :
      (messages : List Message) (s : State)
      → env.on_receive_message s.trace (receive_input env cfg) ≡ ok messages
      → ((poll_once env cfg s).0 ≡ none) × Delivered env cfg messages s (poll_once env cfg s).1
  unfolding poll_once after_receive
  poll_once-Delivered messages s h =
      rw (h, after_receive) (refl, Delivered-received (process_all-Delivered messages (received s)))

  -- pollOnce that receives an error returns it and does nothing else.
  pub poll_once-failed :
      (s : State) {e : Error}
      → env.on_receive_message s.trace (receive_input env cfg) ≡ err e
      → poll_once env cfg s ≡ (
        some (wrapped "failed to receive messages from SQS" e),
        record s { trace = receive_message (receive_input env cfg) ∷ s.trace },
      )
  unfolding poll_once
  poll_once-failed s h = ground arith
