-- ===== src/Poller/Matched.antt =====
-- The messages that internal/worker/poller.go deletes, and the events that it hands over.
use reservation_worker.Base.{◌+◌, List, [], ◌∷◌, Result-cases, ◌≡◌, refl, arith, length, inl, inr}
use reservation_worker.Event.{Event}
use reservation_worker.Config.{Config}
use reservation_worker.Runtime.{Message, Call, Env, State}
use reservation_worker.Handler.Outcomes.{select_calls}
use reservation_worker.Poller.Defs.{receive_input, poll_once, after_poll}
use reservation_worker.Poller.Offer.{
  is_delete, deletions, deliveries, Kept, none_left, skip, keep, Delivered,
}
use reservation_worker.Poller.Delivery.{poll_once-Delivered, poll_once-failed}

-- As many messages were deleted as events were handed over.
abbrev pub Matched : State → State → Type 0
Matched s t =
    length (select_calls is_delete t.trace) + length s.events_chan
    ≡ length (select_calls is_delete s.trace) + length t.events_chan

module _ (env : Env) (cfg : Config) where
  length-deletions :
      (ms : List Message) (before : List Call)
      → length (deletions env cfg ms before) ≡ length ms + length before
  length-deletions [] before = omega arith
  length-deletions (m ∷ ms) before = omega (arith, length-deletions ms (_ ∷ before))

  length-deliveries :
      {ms ks : List Message}
      → Kept env cfg ms ks
      → (before : List Event) → length (deliveries env cfg ks before) ≡ length ks + length before
  length-deliveries none_left before = omega arith
  length-deliveries (skip why rest) before = length-deliveries rest before
  length-deliveries (keep e past prepared chosen rest) before =
      rw prepared (omega (arith, length-deliveries rest (e ∷ before)))

  Delivered-Matched : {ms : List Message} {s t : State} → Delivered env cfg ms s t → Matched s t
  Delivered-Matched {s} d =
      let deleted = length-deletions d.taken (select_calls is_delete s.trace) in
      let handed = length-deliveries d.kept s.events_chan in rw (d.deleted, d.events) (omega arith)

  poll_once-Matched : (s : State) → Matched s (poll_once env cfg s).1
  poll_once-Matched s =
      elim (Result-cases (env.on_receive_message s.trace (receive_input env cfg))) [
        | inl (ms, got) ↦ Delivered-Matched (poll_once-Delivered env cfg ms s got).1
        | inr (e, failed) ↦ rw (poll_once-failed env cfg s failed) refl
      ]

  -- A round of the loop.
  pub after_poll-Matched :
      (s : State) → Matched s (after_poll env cfg (poll_once env cfg s).0 (poll_once env cfg s).1).1
  unfolding after_poll
  after_poll-Matched s = ground (arith, poll_once-Matched s)
