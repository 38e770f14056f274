-- ===== src/Pool/Order.antt =====
-- The events inside the pool of internal/worker/dispatcher.go, in the order of their acceptance.
use reservation_worker.Base.{ℕ, List, [], ◌∷◌, ◌++◌, map, ◌≡◌, refl}
use mathlib.Core.List.{append_assoc, append-nil, map-append}
use reservation_worker.Event.{Event}
use reservation_worker.Pool.Defs.{
  DispatchAt, holding, sending, Fate, Pool, Step, enqueue, hand_over, receive, stop_dispatch, pick,
  give_up, deliver, time_out, register, stop_worker, finish, cancel, close_stop, set_gauge,
  end_early, end_stop, Reach, start, later,
}

-- The event that dispatch has in hand.
abbrev pub in_hand : DispatchAt → List Event
in_hand (holding e) = e ∷ []
in_hand (sending e i) = e ∷ []
in_hand _ = []

abbrev pub event_of : Event × Fate → Event
event_of p = p.0

-- In the order in which they were accepted, the events are settled, in hand or queued.
abbrev pub IsOrdered : Pool → Type 0
IsOrdered s = s.accepted ≡ map event_of s.settled ++ (in_hand s.dispatcher ++ s.queue)

ruleset list_laws = (append_assoc, append-nil, map-append)

Step-IsOrdered : {n : ℕ} {s t : Pool} → Step n s t → IsOrdered s → IsOrdered t
Step-IsOrdered (enqueue e h) o = rw o (simp list_laws)
Step-IsOrdered (hand_over e d q) o = rw (o, d, q) (simp list_laws)
Step-IsOrdered (receive e rest d q) o = rw (o, d, q) refl
Step-IsOrdered (stop_dispatch d h) o = rw (o, d) refl
Step-IsOrdered (pick e i rest d h) o = rw (o, d) refl
Step-IsOrdered (give_up e d) o = rw (o, d) (simp list_laws)
Step-IsOrdered (deliver e i d h) o = rw (o, d) (simp list_laws)
Step-IsOrdered (time_out e i d) o = rw (o, d) (simp list_laws)
Step-IsOrdered (register i h l) o = o
Step-IsOrdered (stop_worker i h c) o = o
Step-IsOrdered (finish e i h) o = o
Step-IsOrdered cancel o = o
Step-IsOrdered close_stop o = o
Step-IsOrdered (set_gauge y) o = o
Step-IsOrdered (end_early y z) o = o
Step-IsOrdered (end_stop p d w) o = o

-- In every reachable state of the pool the accepted events, in their order, are the settled ones,
-- then the one that dispatch has in hand, then the queued ones.
pub Reach-IsOrdered : {n : ℕ} {s : Pool} → Reach n s → IsOrdered s
Reach-IsOrdered start = refl
Reach-IsOrdered (later r st) = Step-IsOrdered st (Reach-IsOrdered r)
