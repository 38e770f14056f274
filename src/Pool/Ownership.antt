-- ===== src/Pool/Ownership.antt =====
-- The channels of the workers inside the pool of internal/worker/dispatcher.go.
use reservation_worker.Base.{ℕ, ◌+◌, ◌<◌, ◌≤◌, List, [], ◌∷◌, ◌++◌, ◌≡◌, refl, arith, length}
use reservation_worker.Pool.Count.{occurs, occurs-append, length-total, total-lt}
use reservation_worker.Pool.Defs.{
  WorkerAt, absent, registering, selecting, gone, DispatchAt, sending, Pool, Step, enqueue,
  hand_over, receive, stop_dispatch, pick, give_up, deliver, time_out, register, stop_worker,
  finish, cancel, close_stop, set_gauge, end_early, end_stop, Reach, start, later,
}

-- The channel that dispatch has in hand.
abbrev pub worker_in_hand : DispatchAt → List ℕ
worker_in_hand (sending e i) = i ∷ []
worker_in_hand _ = []

abbrev pub pooled : Pool → List ℕ
pooled s = worker_in_hand s.dispatcher ++ s.idle

-- 1 for a worker that is not at its `select`, and for a number that no worker has.
abbrev pub away : WorkerAt → ℕ
away selecting = 0
away gone = 0
away _ = 1

abbrev pub IsOwned : Pool → ℕ → Type 0
IsOwned s i = occurs i (pooled s) + away (s.workers i) ≤ 1

Step-IsOwned : {n : ℕ} {s t : Pool} → Step n s t → (i : ℕ) → IsOwned s i → IsOwned t i
Step-IsOwned (enqueue e h) i o = o
Step-IsOwned (hand_over e d q) i o = ground arith
Step-IsOwned (receive e rest d q) i o = ground arith
Step-IsOwned (stop_dispatch d h) i o = ground arith
Step-IsOwned (pick e j rest d h) i o = ground arith
Step-IsOwned (give_up e d) i o = ground arith
Step-IsOwned (deliver e j d h) i o = ground arith
Step-IsOwned (time_out e j d) i o = ground arith
Step-IsOwned {s} (register j h l) i o =
    ground (arith, occurs-append i (pooled s) (j ∷ []), occurs-append i s.idle (j ∷ []))
Step-IsOwned (stop_worker j h c) i o = ground arith
Step-IsOwned (finish e j h) i o = ground arith
Step-IsOwned cancel i o = o
Step-IsOwned close_stop i o = o
Step-IsOwned (set_gauge y) i o = o
Step-IsOwned (end_early y z) i o = o
Step-IsOwned (end_stop p d w) i o = o

-- In every reachable state of the pool the channel of a worker is at most once in the pool or with
-- dispatch, and not at all while the worker registers, handles an event or does not exist.
pub Reach-IsOwned : {n : ℕ} {s : Pool} → Reach n s → (i : ℕ) → IsOwned s i
Reach-IsOwned start i = ground arith
Reach-IsOwned (later r st) i = Step-IsOwned st i (Reach-IsOwned r i)

-- A number from `n` on has no worker.
Step-absent :
    {n : ℕ} {s t : Pool} → Step n s t → (i : ℕ) → s.workers i ≡ absent → t.workers i ≡ absent
Step-absent (enqueue e h) i a = a
Step-absent (hand_over e d q) i a = a
Step-absent (receive e rest d q) i a = a
Step-absent (stop_dispatch d h) i a = a
Step-absent (pick e j rest d h) i a = a
Step-absent (give_up e d) i a = a
Step-absent (deliver e j d h) i a = ground arith
Step-absent (time_out e j d) i a = a
Step-absent (register j h l) i a = ground arith
Step-absent (stop_worker j h c) i a = ground arith
Step-absent (finish e j h) i a = ground arith
Step-absent cancel i a = a
Step-absent close_stop i a = a
Step-absent (set_gauge y) i a = a
Step-absent (end_early y z) i a = a
Step-absent (end_stop p d w) i a = a

pub Reach-absent : {n : ℕ} {s : Pool} → Reach n s → (i : ℕ) → n ≤ i → s.workers i ≡ absent
Reach-absent start i h = ground arith
Reach-absent (later r st) i h = Step-absent st i (Reach-absent r i h)

-- In every reachable state a worker that registers finds room in the pool: the send of its channel
-- never blocks.
pub register_never_blocks :
    {n : ℕ} {s : Pool} → Reach n s → (i : ℕ) → i < n → s.workers i ≡ registering → length s.idle < n
register_never_blocks {n} {s} r i below at =
    let few : (j : ℕ) → occurs j s.idle ≤ 1 = λ j. idle-le s j (Reach-IsOwned r j) in
    let none_here : occurs i s.idle ≡ 0 = idle-away s i (Reach-IsOwned r i) (rw at refl) in
    let none_above : (j : ℕ) → n ≤ j → occurs j s.idle ≡ 0 =
      λ j le. idle-away s j (Reach-IsOwned r j) (rw (Reach-absent r j le) refl) in
    omega (
      arith,
      length-total n s.idle none_above,
      total-lt (λ j. occurs j s.idle) n i few none_here below,
    )
  where
    idle-le : (s : Pool) (j : ℕ) → IsOwned s j → occurs j s.idle ≤ 1
    idle-le s j o = omega (arith, o, occurs-append j (worker_in_hand s.dispatcher) s.idle)

    idle-away : (s : Pool) (j : ℕ) → IsOwned s j → away (s.workers j) ≡ 1 → occurs j s.idle ≡ 0
    idle-away s j o a = omega (arith, o, a, occurs-append j (worker_in_hand s.dispatcher) s.idle)
