-- ===== src/Pool/Prompt.antt =====
-- The pool of internal/worker/dispatcher.go while no timeout of dispatch fires.
use reservation_worker.Base.{ℕ, ◌≤◌, Bool, true, false, List, [], ◌∷◌, ◌++◌, ◌≡◌, refl, arith}
use reservation_worker.Event.{Event}
use reservation_worker.Pool.Count.{occurs, occurs-append}
use reservation_worker.Pool.Ownership.{pooled}
use reservation_worker.Pool.Accounting.{dropped}
use reservation_worker.Pool.Work.{is_internal}
use reservation_worker.Pool.Defs.{
  selecting, Fate, delivered, no_worker, not_received, Pool, started, Step, enqueue, hand_over,
  receive, stop_dispatch, pick, give_up, deliver, time_out, register, stop_worker, finish, cancel,
  close_stop, set_gauge, end_early, end_stop, Reach, start, later,
}

abbrev pub is_timeout : {n : ℕ} {s t : Pool} → Step n s t → Bool
is_timeout (give_up _ _) = true
is_timeout (time_out _ _ _) = true
is_timeout _ = false

-- The states that are reached without a timeout.
pub data InTime (n : ℕ) : Pool → Type 0 where
  start_in_time : InTime n (started n)
  later_in_time : {s t : Pool} → InTime n s → (st : Step n s t) → is_timeout st ≡ false → InTime n t

-- A step of dispatch or a worker that is no timeout.
pub record Prompt (n : ℕ) (s t : Pool) : Type 0 where
  pub step : Step n s t
  pub internal : is_internal step ≡ true
  pub in_time : is_timeout step ≡ false

pub InTime-Reach : {n : ℕ} {s : Pool} → InTime n s → Reach n s
InTime-Reach start_in_time = start
InTime-Reach (later_in_time r st p) = later (InTime-Reach r) st

-- A worker that waits at its `select` can be found: its channel is in the pool or with dispatch.
abbrev pub IsFound : Pool → ℕ → Type 0
IsFound s i = s.workers i ≡ selecting → 1 ≤ occurs i (pooled s)

Step-IsFound :
    {n : ℕ} {s t : Pool} (st : Step n s t)
    → is_timeout st ≡ false
    → (i : ℕ) → IsFound s i
    → IsFound t i
Step-IsFound (enqueue e h) p i f = f
Step-IsFound (hand_over e d q) p i f = ground arith
Step-IsFound (receive e rest d q) p i f = ground arith
Step-IsFound (stop_dispatch d h) p i f = ground arith
Step-IsFound (pick e j rest d h) p i f = ground arith
Step-IsFound (give_up e d) p i f = absurd (cc)
Step-IsFound (deliver e j d h) p i f = ground arith
Step-IsFound (time_out e j d) p i f = absurd (cc)
Step-IsFound {s} (register j h l) p i f =
    ground (arith, occurs-append i (pooled s) (j ∷ []), occurs-append i s.idle (j ∷ []))
Step-IsFound (stop_worker j h c) p i f = ground arith
Step-IsFound (finish e j h) p i f = ground arith
Step-IsFound cancel p i f = f
Step-IsFound close_stop p i f = f
Step-IsFound (set_gauge y) p i f = f
Step-IsFound (end_early y z) p i f = f
Step-IsFound (end_stop q d w) p i f = f

pub InTime-IsFound : {n : ℕ} {s : Pool} → InTime n s → (i : ℕ) → IsFound s i
InTime-IsFound start_in_time i = ground arith
InTime-IsFound (later_in_time r st p) i = Step-IsFound st p i (InTime-IsFound r i)

pub dropped-append : (xs ys : List (Event × Fate)) → dropped (xs ++ ys) ≡ dropped xs ++ dropped ys
dropped-append [] ys = refl
dropped-append ((e, delivered i) ∷ rest) ys = dropped-append rest ys
dropped-append ((e, no_worker) ∷ rest) ys = rw (dropped-append rest ys)
dropped-append ((e, not_received) ∷ rest) ys = rw (dropped-append rest ys)

-- Without a timeout nothing is given up.
Step-dropped :
    {n : ℕ} {s t : Pool} (st : Step n s t)
    → is_timeout st ≡ false
    → dropped s.settled ≡ []
    → dropped t.settled ≡ []
Step-dropped (give_up e d) p none_yet = absurd (cc)
Step-dropped (time_out e i d) p none_yet = absurd (cc)
Step-dropped {s} (deliver e i d h) p none_yet =
    rw (dropped-append s.settled ((e, delivered i) ∷ []), none_yet) refl
Step-dropped st p none_yet = none_yet

pub InTime-dropped : {n : ℕ} {s : Pool} → InTime n s → dropped s.settled ≡ []
InTime-dropped start_in_time = refl
InTime-dropped (later_in_time r st p) = Step-dropped st p (InTime-dropped r)
