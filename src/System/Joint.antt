-- ===== src/System/Joint.antt =====
-- The poller of internal/worker/poller.go and the pool of internal/worker/dispatcher.go, which share
-- the channel of events.
use reservation_worker.Base.{ℕ, ◌+◌, Bool, List, [], ◌∷◌, ◌++◌, ◌≡◌, refl, arith, length}
use reservation_worker.Event.{Event}
use reservation_worker.Config.{Config}
use reservation_worker.Runtime.{proceed, Env, State}
use reservation_worker.Handler.Outcomes.{select_calls}
use reservation_worker.Poller.{poll_once, after_poll}
use reservation_worker.Poller.Offer.{is_delete}
use reservation_worker.Poller.Matched.{after_poll-Matched}
use reservation_worker.Pool.Defs.{Pool, Step, started, Reach, start, later}
use reservation_worker.Pool.Order.{in_hand}
use reservation_worker.Pool.Accounting.{dropped, count, count-append, working, Reach-accounted}

-- Steps of the pool in which it accepts these events, the last one first.
pub data Takes (n : ℕ) (p : Pool) : List Event → Pool → Type 0 where
  at_rest : Takes n p [] p
  alone :
      {es : List Event} {q r : Pool}
      → Takes n p es q
      → Step n q r
      → r.accepted ≡ q.accepted
      → Takes n p es r
  takes :
      {es : List Event} {q r : Pool} (e : Event)
      → Takes n p es q
      → Step n q r
      → r.accepted ≡ q.accepted ++ e ∷ []
      → Takes n p (e ∷ es) r

-- What the process can come to: while the poller makes a round of its loop, the pool makes any steps,
-- in which it accepts the events that the round sends.
pub data Joint (n : ℕ) (env : Env) (cfg : Config) : Pool → State → Type 0 where
  begun : (s : State) → s.events_chan ≡ [] → s.trace ≡ [] → Joint n env cfg (started n) s
  polls :
      {p q : Pool} {s : State} (es : List Event)
      → Joint n env cfg p s
      → env.on_poll s.trace ≡ proceed
      → (after_poll env cfg (poll_once env cfg s).0 (poll_once env cfg s).1).1.events_chan
        ≡ es ++ s.events_chan
      → Takes n p es q
      → Joint n env cfg q (after_poll env cfg (poll_once env cfg s).0 (poll_once env cfg s).1).1

Takes-Reach : {n : ℕ} {p q : Pool} {es : List Event} → Reach n p → Takes n p es q → Reach n q
Takes-Reach r at_rest = r
Takes-Reach r (alone run st a) = later (Takes-Reach r run) st
Takes-Reach r (takes e run st a) = later (Takes-Reach r run) st

Joint-Reach :
    {n : ℕ} {env : Env} {cfg : Config} {p : Pool} {s : State} → Joint n env cfg p s → Reach n p
Joint-Reach (begun s e t) = start
Joint-Reach (polls es j o sends run) = Takes-Reach (Joint-Reach j) run

-- The poller deletes as many messages as it hands over events.
pub Joint-deleted :
    {n : ℕ} {env : Env} {cfg : Config} {p : Pool} {s : State}
    → Joint n env cfg p s
    → length (select_calls is_delete s.trace) ≡ length s.events_chan
Joint-deleted (begun s e t) = rw (e, t) refl
Joint-deleted {env} {cfg} (polls {s} es j o sends run) =
    omega (arith, Joint-deleted j, after_poll-Matched env cfg s)

module _ (p : Event → Bool) where
  Takes-accepted :
      {n : ℕ} {a b : Pool} {es : List Event}
      → Takes n a es b
      → count p b.accepted ≡ count p es + count p a.accepted
  Takes-accepted at_rest = omega arith
  Takes-accepted (alone run st h) = rw h (Takes-accepted run)
  Takes-accepted (takes {q} e run st h) =
      rw h (ground (arith, count-append p q.accepted (e ∷ []), Takes-accepted run))

  pub Joint-accepted :
      {n : ℕ} {env : Env} {cfg : Config} {a : Pool} {s : State}
      → Joint n env cfg a s
      → count p s.events_chan ≡ count p a.accepted
  Joint-accepted (begun s e t) = rw e refl
  Joint-accepted (polls {s} es j o sends run) =
      rw sends
        (omega (arith, count-append p es s.events_chan, Joint-accepted j, Takes-accepted run))

  -- As many messages were deleted from the queue of SQS as events were handed over, and of the
  -- events handed over, with any property, each is queued, in the hands of dispatch, given up after
  -- a timeout, being handled by a worker, or handled.
  pub Joint-accounted :
      {n : ℕ} {env : Env} {cfg : Config} {a : Pool} {s : State}
      → Joint n env cfg a s
      → (length (select_calls is_delete s.trace) ≡ length s.events_chan)
        × (count p s.events_chan
            ≡ count p a.queue
              + count p (in_hand a.dispatcher)
              + count p (dropped a.settled)
              + working p n a
              + count p a.handled)
  Joint-accounted j =
      (Joint-deleted j, omega (arith, Joint-accepted j, Reach-accounted p (Joint-Reach j)))
