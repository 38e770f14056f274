-- ===== src/Pool/Shutdown.antt =====
-- The pool of internal/worker/dispatcher.go and worker.go after the end of the context or Stop.
use reservation_worker.Base.{ℕ, ◌<◌, true, false, [], ◌∷◌, ◌≡◌, inl, refl, arith}
use reservation_worker.Event.{Event}
use reservation_worker.Pool.Ownership.{Reach-IsOwned}
use reservation_worker.Pool.Defs.{
  selecting, gone, sending, returned, Pool, started, Step, enqueue, hand_over, receive,
  stop_dispatch, pick, give_up, deliver, time_out, register, stop_worker, finish, cancel,
  close_stop, set_gauge, end_early, end_stop, Reach, start, later,
}

-- A worker returns only when the context is done.
abbrev pub GoneIsCancelled : Pool → ℕ → Type 0
GoneIsCancelled s i = s.workers i ≡ gone → s.cancelled ≡ true

Step-GoneIsCancelled :
    {n : ℕ} {s t : Pool} → Step n s t → (i : ℕ) → GoneIsCancelled s i → GoneIsCancelled t i
Step-GoneIsCancelled (enqueue e h) i g = g
Step-GoneIsCancelled (hand_over e d q) i g = g
Step-GoneIsCancelled (receive e rest d q) i g = g
Step-GoneIsCancelled (stop_dispatch d h) i g = g
Step-GoneIsCancelled (pick e j rest d h) i g = g
Step-GoneIsCancelled (give_up e d) i g = g
Step-GoneIsCancelled (deliver e j d h) i g = ground arith
Step-GoneIsCancelled (time_out e j d) i g = g
Step-GoneIsCancelled (register j h l) i g = ground arith
Step-GoneIsCancelled (stop_worker j h c) i g = ground arith
Step-GoneIsCancelled (finish e j h) i g = ground arith
Step-GoneIsCancelled cancel i g = λ _. refl
Step-GoneIsCancelled close_stop i g = g
Step-GoneIsCancelled (set_gauge y) i g = g
Step-GoneIsCancelled (end_early y z) i g = g
Step-GoneIsCancelled (end_stop p d w) i g = g

pub Reach-GoneIsCancelled : {n : ℕ} {s : Pool} → Reach n s → (i : ℕ) → GoneIsCancelled s i
Reach-GoneIsCancelled start i = ground arith
Reach-GoneIsCancelled (later r st) i = Step-GoneIsCancelled st i (Reach-GoneIsCancelled r i)

-- In every reachable state whose context is not done, the worker that dispatch picked is ready for
-- the event.
pub sending-ready :
    {n : ℕ} {s : Pool}
    → Reach n s
    → (e : Event) (i : ℕ) → s.dispatcher ≡ sending e i
    → s.cancelled ≡ false
    → s.workers i ≡ selecting
sending-ready {s} r e i d c = ground (arith, Reach-IsOwned r i, Reach-GoneIsCancelled r i)

-- Any number of steps.
pub data Steps (n : ℕ) (s : Pool) : Pool → Type 0 where
  here : Steps n s s
  more : {t u : Pool} → Steps n s t → Step n t u → Steps n s u

-- Once dispatch has returned it stays so, and nothing is settled any more.
pub record IsOver (s t : Pool) : Type 0 where
  pub over : t.dispatcher ≡ returned
  pub settled : t.settled ≡ s.settled

Step-IsOver : {n : ℕ} {s t u : Pool} → IsOver s t → Step n t u → IsOver s u
Step-IsOver o (enqueue e h) = record { over = o.over; settled = o.settled }
Step-IsOver o (hand_over e d q) = ground arith
Step-IsOver o (receive e rest d q) = ground arith
Step-IsOver o (stop_dispatch d h) = ground arith
Step-IsOver o (pick e j rest d h) = ground arith
Step-IsOver o (give_up e d) = ground arith
Step-IsOver o (deliver e j d h) = ground arith
Step-IsOver o (time_out e j d) = ground arith
Step-IsOver o (register j h l) = record { over = o.over; settled = o.settled }
Step-IsOver o (stop_worker j h c) = record { over = o.over; settled = o.settled }
Step-IsOver o (finish e j h) = record { over = o.over; settled = o.settled }
Step-IsOver o cancel = record { over = o.over; settled = o.settled }
Step-IsOver o close_stop = record { over = o.over; settled = o.settled }
Step-IsOver o (set_gauge y) = record { over = o.over; settled = o.settled }
Step-IsOver o (end_early y z) = record { over = o.over; settled = o.settled }
Step-IsOver o (end_stop p d w) = record { over = o.over; settled = o.settled }

-- After dispatch has returned, no step settles another event.
pub Steps-IsOver : {n : ℕ} {s t : Pool} → s.dispatcher ≡ returned → Steps n s t → IsOver s t
Steps-IsOver d here = record { over = d; settled = refl }
Steps-IsOver d (more r st) = Step-IsOver (Steps-IsOver d r) st

-- The pool after one event was accepted and the process was told to stop.
abbrev stranded : ℕ → Event → Pool
stranded n e = record (started n) {
  queue = e ∷ [];
  dispatcher = returned;
  cancelled = true;
  accepted = e ∷ [];
}

-- With a pool of at least one worker, any event may be accepted and never reach a worker: there is
-- a run that accepts it and ends dispatch before it is read, and no continuation settles it.
pub accepted_may_strand :
    (n : ℕ) (e : Event)
    → 0 < n
    → (s : Pool) × Reach n s × (s.accepted ≡ e ∷ []) × ((t : Pool) → Steps n s t → t.settled ≡ [])
accepted_may_strand n e h = (
  stranded n e,
  later (later (later start (enqueue e (omega arith))) cancel) (stop_dispatch refl (inl refl)),
  refl,
  λ t r. (Steps-IsOver refl r).settled,
)
