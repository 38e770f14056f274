-- ===== src/Pool/Drain.antt =====
-- How the pool of internal/worker/dispatcher.go works off what it has accepted while nothing stops it.
use reservation_worker.Base.{ℕ, ◌<◌, ◌≤◌, true, false, List, [], ◌∷◌, map, ◌≡◌, ◌⊎◌, inl, inr, refl}
use mathlib.Core.List.{append-nil}
use reservation_worker.Event.{Event}
use reservation_worker.Pool.Order.{event_of, Reach-IsOrdered}
use reservation_worker.Pool.Ownership.{register_never_blocks}
use reservation_worker.Pool.Shutdown.{Reach-GoneIsCancelled}
use reservation_worker.Pool.Work.{is_internal, work}
use reservation_worker.Pool.Progress.{Internal, Run, Next, below-or, Run-goes_on}
use reservation_worker.Pool.Rest.{Reach-present, holding_goes_on, sending_goes_on}
use reservation_worker.Pool.Defs.{
  WorkerAt, absent, registering, selecting, handling, gone, DispatchAt, choosing, holding, sending,
  returned, Pool, Step, receive, stop_dispatch, register, finish, pick, give_up, deliver, time_out,
  hand_over, cancel, close_stop, Reach, start, later,
}

-- Nothing has told the pool to stop.
pub record IsOpen (s : Pool) : Type 0 where
  pub cancelled : s.cancelled ≡ false
  pub stopping : s.stopping ≡ false

pub Step-IsOpen :
    {n : ℕ} {s t : Pool} (st : Step n s t) → is_internal st ≡ true → IsOpen s → IsOpen t
Step-IsOpen cancel i o = absurd (cc)
Step-IsOpen close_stop i o = absurd (cc)
Step-IsOpen st i o = record { cancelled = o.cancelled; stopping = o.stopping }

-- Dispatch returns only when it is told to.
abbrev pub ReturnedIsTold : Pool → Type 0
ReturnedIsTold s = s.dispatcher ≡ returned → (s.cancelled ≡ true) ⊎ (s.stopping ≡ true)

Step-returned : {n : ℕ} {s t : Pool} → Step n s t → ReturnedIsTold s → ReturnedIsTold t
Step-returned (hand_over e d q) told r = absurd (cc)
Step-returned (receive e rest d q) told r = absurd (cc)
Step-returned (stop_dispatch d h) told r = h
Step-returned (pick e i rest d h) told r = absurd (cc)
Step-returned (give_up e d) told r = absurd (cc)
Step-returned (deliver e i d h) told r = absurd (cc)
Step-returned (time_out e i d) told r = absurd (cc)
Step-returned cancel told r = inl refl
Step-returned close_stop told r = inr refl
Step-returned st told r = told r

pub Reach-returned : {n : ℕ} {s : Pool} → Reach n s → ReturnedIsTold s
Reach-returned start d = absurd (cc)
Reach-returned (later r st) d = Step-returned st (Reach-returned r) d

-- Nothing is left to do: every accepted event is settled, and dispatch and all workers wait.
pub record IsIdle (n : ℕ) (s : Pool) : Type 0 where
  pub queue : s.queue ≡ []
  pub dispatcher : s.dispatcher ≡ choosing
  pub workers : (i : ℕ) → i < n → s.workers i ≡ selecting
  pub settled : s.accepted ≡ map event_of s.settled

pub worker_goes_on :
    {n : ℕ} {s : Pool}
    → Reach n s
    → IsOpen s
    → (i : ℕ) → i < n
    → (w : WorkerAt) → s.workers i ≡ w
    → (w ≡ selecting) ⊎ Next (Internal n) s
worker_goes_on r o i l absent at = absurd (Reach-present r i l at)
worker_goes_on r o i l registering at =
    inr (_, record { step = register i at (register_never_blocks r i l at); internal = refl })
worker_goes_on r o i l selecting at = inl refl
worker_goes_on r o i l (handling e) at = inr (_, record { step = finish e i at; internal = refl })
worker_goes_on r o i l gone at = let c = Reach-GoneIsCancelled r i at in absurd (cc)

choosing_goes_on :
    {n : ℕ} {s : Pool}
    → s.dispatcher ≡ choosing
    → (q : List Event) → s.queue ≡ q
    → (q ≡ []) ⊎ Next (Internal n) s
choosing_goes_on d [] h = inl refl
choosing_goes_on d (e ∷ rest) h = inr (_, record { step = receive e rest d h; internal = refl })

dispatch_goes_on :
    {n : ℕ} {s : Pool}
    → Reach n s
    → IsOpen s
    → (d : DispatchAt) → s.dispatcher ≡ d
    → ((s.queue ≡ []) × (s.dispatcher ≡ choosing)) ⊎ Next (Internal n) s
dispatch_goes_on {s} r o choosing at = elim (choosing_goes_on at s.queue refl) [
  | inl empty ↦ inl (empty, at)
  | inr next ↦ inr next
]
dispatch_goes_on {s} r o (holding e) at = inr (holding_goes_on e at s.idle refl)
dispatch_goes_on {s} r o (sending e i) at = inr (sending_goes_on e i at (s.workers i) refl)
dispatch_goes_on r o returned at = elim (Reach-returned r at) [
  | inl c ↦ absurd (cc)
  | inr st ↦ absurd (cc)
]

goes_on : {n : ℕ} {s : Pool} → Reach n s → IsOpen s → IsIdle n s ⊎ Next (Internal n) s
goes_on {n} {s} r o = elim (dispatch_goes_on r o s.dispatcher refl) [
  | inr next ↦ inr next
  | inl (empty, waits) ↦
      elim (below-or {P = λ i. s.workers i ≡ selecting} {N = Next (Internal n) s} n
        (λ i l. worker_goes_on r o i l (s.workers i) refl)) [
          | inr next ↦ inr next
          | inl all ↦ inl (record {
            queue = empty;
            dispatcher = waits;
            workers = all;
            settled = rw (waits, empty, append-nil (map event_of s.settled)) at (Reach-IsOrdered r);
          })
        ]
]

-- In a pool that nothing stops and that gets no more events, dispatch and the workers cannot be stuck:
-- a run is never longer than the work that was left, and it goes on until every accepted event
-- is settled and dispatch and all workers wait.
pub Run-works_off :
    {n : ℕ} {s : Pool} {k : ℕ} {t : Pool}
    → Reach n s
    → s.cancelled ≡ false
    → s.stopping ≡ false
    → Run (Internal n) s k t
    → (k ≤ work n s) × (IsIdle n t ⊎ ((u : Pool) × Internal n t u))
Run-works_off {n} r c o =
    Run-goes_on (Internal n) (λ s t st. st) IsOpen (IsIdle n)
      (λ s t st. Step-IsOpen st.step st.internal) (λ s. goes_on) r
      (record { cancelled = c; stopping = o })
