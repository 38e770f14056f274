-- ===== src/Pool/Rest.antt =====
-- How the pool of internal/worker/dispatcher.go comes to rest after the context is done.
use reservation_worker.Base.{ℕ, ◌<◌, ◌≤◌, true, [], ◌∷◌, List, ◌≡◌, ◌≢◌, ◌⊎◌, inl, inr, refl, arith}
use reservation_worker.Event.{Event}
use reservation_worker.Pool.Ownership.{register_never_blocks}
use reservation_worker.Pool.Gauge.{IsAtRest}
use reservation_worker.Pool.Work.{work}
use reservation_worker.Pool.Progress.{Internal, Run, Next, below-or, Run-goes_on, Run-ends}
use reservation_worker.Pool.Defs.{
  WorkerAt, absent, registering, selecting, handling, gone, DispatchAt, choosing, holding, sending,
  returned, Pool, Step, stop_dispatch, pick, give_up, deliver, time_out, register, stop_worker,
  finish, cancel, Reach, start, later,
}

-- No step takes the context back.
pub Step-cancelled : {n : ℕ} {s t : Pool} → Step n s t → s.cancelled ≡ true → t.cancelled ≡ true
Step-cancelled cancel c = refl
Step-cancelled st c = c

-- A worker of the pool is never absent.
Step-present :
    {n : ℕ} {s t : Pool} → Step n s t → (i : ℕ) → s.workers i ≢ absent → t.workers i ≢ absent
Step-present (deliver e j d h) i a = ground arith
Step-present (register j h l) i a = ground arith
Step-present (stop_worker j h c) i a = ground arith
Step-present (finish e j h) i a = ground arith
Step-present st i a = a

pub Reach-present : {n : ℕ} {s : Pool} → Reach n s → (i : ℕ) → i < n → s.workers i ≢ absent
Reach-present start i l = ground arith
Reach-present (later r st) i l = Step-present st i (Reach-present r i l)

-- A worker that has not returned can go on.
worker_goes_on :
    {n : ℕ} {s : Pool}
    → Reach n s
    → s.cancelled ≡ true
    → (i : ℕ) → i < n
    → (w : WorkerAt) → s.workers i ≡ w
    → (w ≡ gone) ⊎ Next (Internal n) s
worker_goes_on r c i l absent at = absurd (Reach-present r i l at)
worker_goes_on r c i l registering at =
    inr (_, record { step = register i at (register_never_blocks r i l at); internal = refl })
worker_goes_on r c i l selecting at = inr (_, record { step = stop_worker i at c; internal = refl })
worker_goes_on r c i l (handling e) at = inr (_, record { step = finish e i at; internal = refl })
worker_goes_on r c i l gone at = inl refl

worker_leaves :
    {n : ℕ} {s : Pool}
    → Reach n s
    → s.cancelled ≡ true
    → (i : ℕ) → i < n
    → (s.workers i ≡ gone) ⊎ Next (Internal n) s
worker_leaves {s} r c i l = worker_goes_on r c i l (s.workers i) refl

-- So can dispatch.
pub holding_goes_on :
    {n : ℕ} {s : Pool} (e : Event)
    → s.dispatcher ≡ holding e
    → (idle : List ℕ) → s.idle ≡ idle
    → Next (Internal n) s
holding_goes_on e d [] h = (_, record { step = give_up e d; internal = refl })
holding_goes_on e d (i ∷ rest) h = (_, record { step = pick e i rest d h; internal = refl })

pub sending_goes_on :
    {n : ℕ} {s : Pool} (e : Event) (i : ℕ)
    → s.dispatcher ≡ sending e i
    → (w : WorkerAt) → s.workers i ≡ w
    → Next (Internal n) s
sending_goes_on e i d selecting at = (_, record { step = deliver e i d at; internal = refl })
sending_goes_on e i d w at = (_, record { step = time_out e i d; internal = refl })

dispatch_goes_on :
    {n : ℕ} {s : Pool}
    → s.cancelled ≡ true
    → (d : DispatchAt) → s.dispatcher ≡ d
    → (d ≡ returned) ⊎ Next (Internal n) s
dispatch_goes_on c choosing at =
    inr (_, record { step = stop_dispatch at (inl c); internal = refl })
dispatch_goes_on {s} c (holding e) at = inr (holding_goes_on e at s.idle refl)
dispatch_goes_on {s} c (sending e i) at = inr (sending_goes_on e i at (s.workers i) refl)
dispatch_goes_on c returned at = inl refl

goes_on : {n : ℕ} {s : Pool} → Reach n s → s.cancelled ≡ true → IsAtRest n s ⊎ Next (Internal n) s
goes_on {n} {s} r c = elim (dispatch_goes_on c s.dispatcher refl) [
  | inr next ↦ inr next
  | inl over ↦
      elim (below-or {P = λ i. s.workers i ≡ gone} {N = Next (Internal n) s} n
        (λ i l. worker_leaves r c i l)) [
          | inr next ↦ inr next
          | inl all ↦ inl (record { dispatcher = over; workers = all })
        ]
]

-- With the context done, a run of dispatch and the workers by themselves is never longer than the
-- work that was left, and it can go on until dispatch and every worker have returned.
pub Run-comes_to_rest :
    {n : ℕ} {s : Pool} {k : ℕ} {t : Pool}
    → Reach n s
    → s.cancelled ≡ true
    → Run (Internal n) s k t
    → (k ≤ work n s) × (IsAtRest n t ⊎ ((u : Pool) × Internal n t u))
Run-comes_to_rest {n} =
    Run-goes_on (Internal n) (λ s t st. st) (λ s. s.cancelled ≡ true) (IsAtRest n)
      (λ s t st. Step-cancelled st.step) (λ s. goes_on)

-- From every reachable state whose context is done, dispatch and the workers reach a state where they
-- have all returned, by their own steps: Stop does not wait for ever.
pub comes_to_rest :
    {n : ℕ} {s : Pool}
    → Reach n s
    → s.cancelled ≡ true
    → (t : Pool) × (k : ℕ) × Run (Internal n) s k t × IsAtRest n t
comes_to_rest {n} =
    Run-ends (Internal n) (λ s t st. st) (λ s. s.cancelled ≡ true) (IsAtRest n)
      (λ s t st. Step-cancelled st.step) (λ s. goes_on)
