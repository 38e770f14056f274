-- ===== src/Pool/Work.antt =====
-- The work that is left in the pool of internal/worker/dispatcher.go when nothing new arrives.
use reservation_worker.Base.{
  ℕ, ◌+◌, ◌*◌, ◌<◌, Bool, true, false, ◌≡◌, ◌≢◌, arith, length, ltb, ltb→lt, Bool-cases, inl, inr,
}
use reservation_worker.Pool.Count.{total, total-change}
use reservation_worker.Pool.Ownership.{Reach-absent}
use reservation_worker.Pool.Defs.{
  WorkerAt, absent, registering, selecting, handling, gone, DispatchAt, choosing, holding, sending,
  returned, Pool, update, Step, enqueue, hand_over, receive, stop_dispatch, pick, give_up, deliver,
  time_out, register, stop_worker, finish, cancel, close_stop, set_gauge, end_early, end_stop,
  Reach,
}

-- A step that dispatch or a worker makes by itself.
abbrev pub is_internal : {n : ℕ} {s t : Pool} → Step n s t → Bool
is_internal (enqueue _ _) = false
is_internal (hand_over _ _ _) = false
is_internal cancel = false
is_internal close_stop = false
is_internal (set_gauge _) = false
is_internal (end_early _ _) = false
is_internal (end_stop _ _ _) = false
is_internal _ = true

abbrev pub worker_work : WorkerAt → ℕ
worker_work absent = 0
worker_work registering = 2
worker_work selecting = 1
worker_work (handling e) = 3
worker_work gone = 0

abbrev pub dispatch_work : DispatchAt → ℕ
dispatch_work choosing = 1
dispatch_work (holding e) = 5
dispatch_work (sending e i) = 4
dispatch_work returned = 0

-- A bound on the internal steps that are left.
abbrev pub work : ℕ → Pool → ℕ
work n s =
    length s.queue * 5 + dispatch_work s.dispatcher + total (λ i. worker_work (s.workers i)) n

-- A total over the workers after one of them has moved on.
pub total-update :
    (w : WorkerAt → ℕ) (n i : ℕ) (f : ℕ → WorkerAt) (a : WorkerAt)
    → i < n
    → total (λ j. w (update f i a j)) n + w (f i) ≡ total (λ j. w (f j)) n + w a
total-update w n i f a l =
    let moved : w (update f i a i) ≡ w a = ground arith in
    omega (
      arith,
      moved,
      total-change (λ j. w (update f i a j)) (λ j. w (f j)) i n l (λ j ne. ground arith),
    )

-- A worker that is somewhere has a number below the bound.
pub below : {n : ℕ} {s : Pool} → Reach n s → (i : ℕ) → s.workers i ≢ absent → i < n
below {n} {s} r i h = elim (Bool-cases (ltb i n)) [
  | inl l ↦ ltb→lt i n l
  | inr ge ↦ absurd (h (Reach-absent r i (ground arith)))
]

pub Step-work :
    {n : ℕ} {s t : Pool}
    → Reach n s
    → (st : Step n s t) → is_internal st ≡ true
    → work n t < work n s
Step-work r (enqueue e h) i = cc
Step-work r (hand_over e d q) i = cc
Step-work r (receive e rest d q) i = ground arith
Step-work r (stop_dispatch d h) i = ground arith
Step-work r (pick e j rest d h) i = ground arith
Step-work r (give_up e d) i = ground arith
Step-work {n} {s} r (deliver e j d h) i =
    ground (arith, total-update worker_work n j s.workers (handling e) (below r j (λ a. cc)))
Step-work r (time_out e j d) i = ground arith
Step-work {n} {s} r (register j h l) i =
    ground (arith, total-update worker_work n j s.workers selecting (below r j (λ a. cc)))
Step-work {n} {s} r (stop_worker j h c) i =
    ground (arith, total-update worker_work n j s.workers gone (below r j (λ a. cc)))
Step-work {n} {s} r (finish e j h) i =
    ground (arith, total-update worker_work n j s.workers registering (below r j (λ a. cc)))
Step-work r cancel i = cc
Step-work r close_stop i = cc
Step-work r (set_gauge y) i = cc
Step-work r (end_early y z) i = cc
Step-work r (end_stop p d w) i = cc
