-- ===== src/Pool/Lost.antt =====
-- A worker of internal/worker/worker.go whose event was not sent in time.
use reservation_worker.Base.{
  Bool, true, false, ℕ, suc, ◌+◌, List, [], ◌∷◌, ◌++◌, ◌≡◌, ◌⊎◌, inl, arith, eqb, if◌then◌else◌,
}
use reservation_worker.Event.{Event}
use reservation_worker.Pool.Count.{occurs, occurs-append}
use reservation_worker.Pool.Ownership.{pooled, Reach-IsOwned}
use reservation_worker.Pool.Shutdown.{sending-ready, Steps, here, more}
use reservation_worker.Pool.Defs.{
  selecting, gone, sending, Fate, delivered, no_worker, not_received, Pool, Step, enqueue,
  hand_over, receive, stop_dispatch, pick, give_up, deliver, time_out, register, stop_worker,
  finish, cancel, close_stop, set_gauge, end_early, end_stop, Reach,
}

-- How many events were given to this worker.
abbrev pub given_to : ℕ → List (Event × Fate) → ℕ
given_to i [] = 0
given_to i ((e, delivered j) ∷ rest) = if eqb i j then suc (given_to i rest) else given_to i rest
given_to i ((e, no_worker) ∷ rest) = given_to i rest
given_to i ((e, not_received) ∷ rest) = given_to i rest

given_to-append :
    (i : ℕ) (xs ys : List (Event × Fate)) → given_to i (xs ++ ys) ≡ given_to i xs + given_to i ys
given_to-append i [] ys = omega arith
given_to-append i ((e, delivered j) ∷ rest) ys = ground (arith, given_to-append i rest ys)
given_to-append i ((e, no_worker) ∷ rest) ys = given_to-append i rest ys
given_to-append i ((e, not_received) ∷ rest) ys = given_to-append i rest ys

-- The worker waits outside the pool, or has returned, and was given `k` events so far.
pub record IsLost (i k : ℕ) (s : Pool) : Type 0 where
  pub at : (s.workers i ≡ selecting) ⊎ (s.workers i ≡ gone)
  pub outside : occurs i (pooled s) ≡ 0
  pub given : given_to i s.settled ≡ k

Step-IsLost : {n i k : ℕ} {s t : Pool} → Step n s t → IsLost i k s → IsLost i k t
Step-IsLost (enqueue e h) l = record { at = l.at; outside = l.outside; given = l.given }
Step-IsLost (hand_over e d q) l = ground arith
Step-IsLost (receive e rest d q) l = ground arith
Step-IsLost (stop_dispatch d h) l = ground arith
Step-IsLost (pick e j rest d h) l = ground arith
Step-IsLost {i} {s} (give_up e d) l =
    ground (arith, given_to-append i s.settled ((e, no_worker) ∷ []))
Step-IsLost {i} {s} (deliver e j d h) l =
    ground (arith, given_to-append i s.settled ((e, delivered j) ∷ []))
Step-IsLost {i} {s} (time_out e j d) l =
    ground (arith, given_to-append i s.settled ((e, not_received) ∷ []))
Step-IsLost {i} {s} (register j h f) l =
    ground (arith, occurs-append i (pooled s) (j ∷ []), occurs-append i s.idle (j ∷ []))
Step-IsLost (stop_worker j h c) l = ground arith
Step-IsLost (finish e j h) l = ground arith
Step-IsLost cancel l = record { at = l.at; outside = l.outside; given = l.given }
Step-IsLost close_stop l = record { at = l.at; outside = l.outside; given = l.given }
Step-IsLost (set_gauge y) l = record { at = l.at; outside = l.outside; given = l.given }
Step-IsLost (end_early y z) l = record { at = l.at; outside = l.outside; given = l.given }
Step-IsLost (end_stop p d w) l = record { at = l.at; outside = l.outside; given = l.given }

Steps-IsLost : {n i k : ℕ} {s t : Pool} → IsLost i k s → Steps n s t → IsLost i k t
Steps-IsLost l here = l
Steps-IsLost l (more run st) = Step-IsLost st (Steps-IsLost l run)

abbrev pub is_send_timeout : {n : ℕ} {s t : Pool} → Step n s t → Bool
is_send_timeout (time_out _ _ _) = true
is_send_timeout _ = false

-- A worker to which dispatch sends an event when the send times out, while the context is not done, is
-- lost: the step does not put its channel back into the pool, so that whatever happens next it waits
-- at its `select` or returns, outside the pool, and is given no event again.
pub timed_out-IsLost :
    {n : ℕ} {s t u : Pool} (e : Event) (i : ℕ)
    → Reach n s
    → s.dispatcher ≡ sending e i
    → s.cancelled ≡ false
    → (st : Step n s t) → is_send_timeout st ≡ true
    → Steps n t u
    → IsLost i (given_to i s.settled) u
timed_out-IsLost {s} e i r d c (time_out f j d') late run =
    let ready = sending-ready r e i d c in
    let owned = Reach-IsOwned r i in
    Steps-IsLost
      (record {
        at = inl ready;
        outside = ground arith;
        given = ground (arith, given_to-append i s.settled ((f, not_received) ∷ []));
      })
      run
timed_out-IsLost e i r d c st late run = absurd (cc)
