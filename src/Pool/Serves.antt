-- ===== src/Pool/Serves.antt =====
-- That the pool of internal/worker/dispatcher.go needs no timeout to handle what it has accepted.
use reservation_worker.Base.{
  ℕ, ◌<◌, ◌≤◌, Bool, false, List, [], ◌∷◌, ◌≡◌, ◌⊎◌, inl, inr, refl, arith,
}
use reservation_worker.Event.{Event}
use reservation_worker.Pool.Ownership.{register_never_blocks}
use reservation_worker.Pool.Shutdown.{Reach-GoneIsCancelled, sending-ready}
use reservation_worker.Pool.Order.{in_hand}
use reservation_worker.Pool.Accounting.{dropped, count, working-none, Reach-accounted}
use reservation_worker.Pool.Work.{work}
use reservation_worker.Pool.Progress.{Run, Next, below-or, Run-goes_on}
use reservation_worker.Pool.Rest.{Reach-present}
use reservation_worker.Pool.Drain.{IsOpen, Step-IsOpen, Reach-returned}
use reservation_worker.Pool.Prompt.{
  InTime, later_in_time, Prompt, InTime-Reach, InTime-IsFound, InTime-dropped,
}
use reservation_worker.Pool.Defs.{
  WorkerAt, absent, registering, selecting, handling, gone, DispatchAt, choosing, holding, sending,
  returned, Pool, receive, pick, deliver, register, finish,
}

-- Dispatch and all workers wait.
pub record IsWaiting (n : ℕ) (s : Pool) : Type 0 where
  pub queue : s.queue ≡ []
  pub dispatcher : s.dispatcher ≡ choosing
  pub workers : (i : ℕ) → i < n → s.workers i ≡ selecting

-- All accepted events are handled besides.
pub record IsServed (n : ℕ) (s : Pool) : Type 0 where
  pub waiting : IsWaiting n s
  pub handled : (p : Event → Bool) → count p s.accepted ≡ count p s.handled

-- In an open pool that no timeout has touched.
record IsPlain (n : ℕ) (s : Pool) : Type 0 where
  in_time : InTime n s
  open_yet : IsOpen s

Prompt-IsPlain : {n : ℕ} (s t : Pool) → Prompt n s t → IsPlain n s → IsPlain n t
Prompt-IsPlain s t m c = record {
  in_time = later_in_time c.in_time m.step m.in_time;
  open_yet = Step-IsOpen m.step m.internal c.open_yet;
}

-- Without a timeout, a pool that waits has handled all events.
pub waiting-handled :
    {n : ℕ} {s : Pool} (p : Event → Bool)
    → InTime n s
    → IsWaiting n s
    → count p s.accepted ≡ count p s.handled
waiting-handled {s} p t waiting =
    let r = InTime-Reach t in
    let none_working = working-none p r (λ i l. rw (waiting.workers i l) refl) in
    let none_queued : count p s.queue ≡ 0 = rw waiting.queue refl in
    let none_in_hand : count p (in_hand s.dispatcher) ≡ 0 = rw waiting.dispatcher refl in
    let none_dropped : count p (dropped s.settled) ≡ 0 = rw (InTime-dropped t) refl in
    omega (arith, Reach-accounted p r)

module _ {n : ℕ} (s : Pool) (plain : IsPlain n s) where
  worker_moves :
      (i : ℕ) → i < n → (w : WorkerAt) → s.workers i ≡ w → (w ≡ selecting) ⊎ Next (Prompt n) s
  worker_moves i l absent at = absurd (Reach-present (InTime-Reach plain.in_time) i l at)
  worker_moves i l registering at =
      let room = register_never_blocks (InTime-Reach plain.in_time) i l at in
      inr (_, record { step = register i at room; internal = refl; in_time = refl })
  worker_moves i l selecting at = inl refl
  worker_moves i l (handling e) at =
      inr (_, record { step = finish e i at; internal = refl; in_time = refl })
  worker_moves i l gone at =
      let c = Reach-GoneIsCancelled (InTime-Reach plain.in_time) i at in
      let o = plain.open_yet.cancelled in absurd (cc)

  -- With an empty pool some worker is about to register.
  holding_moves :
      (e : Event) (idle : List ℕ)
      → 0 < n
      → s.dispatcher ≡ holding e
      → s.idle ≡ idle
      → Next (Prompt n) s
  holding_moves e [] l d h = elim (worker_moves 0 l (s.workers 0) refl) [
    | inl waits ↦ let f = InTime-IsFound plain.in_time 0 waits in absurd (ground arith)
    | inr next ↦ next
  ]
  holding_moves e (i ∷ rest) l d h =
      (_, record { step = pick e i rest d h; internal = refl; in_time = refl })

  dispatch_moves :
      (d : DispatchAt)
      → 0 < n
      → s.dispatcher ≡ d
      → ((s.queue ≡ []) × (s.dispatcher ≡ choosing)) ⊎ Next (Prompt n) s
  dispatch_moves choosing l at = from_queue s.queue refl
    where
      from_queue :
          (q : List Event)
          → s.queue ≡ q
          → ((s.queue ≡ []) × (s.dispatcher ≡ choosing)) ⊎ Next (Prompt n) s
      from_queue [] h = inl (h, at)
      from_queue (e ∷ rest) h =
          inr (_, record { step = receive e rest at h; internal = refl; in_time = refl })
  dispatch_moves (holding e) l at = inr (holding_moves e s.idle l at refl)
  dispatch_moves (sending e i) l at =
      let ready = sending-ready (InTime-Reach plain.in_time) e i at plain.open_yet.cancelled in
      inr (_, record { step = deliver e i at ready; internal = refl; in_time = refl })
  dispatch_moves returned l at =
      let o = plain.open_yet in
      elim (Reach-returned (InTime-Reach plain.in_time) at) [
        | inl c ↦ let x = o.cancelled in absurd (cc)
        | inr st ↦ let x = o.stopping in absurd (cc)
      ]

  moves : 0 < n → IsServed n s ⊎ Next (Prompt n) s
  moves l = elim (dispatch_moves s.dispatcher l refl) [
    | inr next ↦ inr next
    | inl (empty, waits) ↦
        elim (below-or {P = λ i. s.workers i ≡ selecting} {N = Next (Prompt n) s} n
          (λ i less. worker_moves i less (s.workers i) refl)) [
            | inr next ↦ inr next
            | inl all ↦
                let waiting : IsWaiting n s = record {
                  queue = empty;
                  dispatcher = waits;
                  workers = all;
                } in
                inl (record {
                  waiting = waiting;
                  handled = λ p. waiting-handled p plain.in_time waiting;
                })
          ]
  ]

-- In an open pool of at least one worker in which no timeout has fired, none has to: a run without
-- timeouts is never longer than the work that was left, and it goes on until every accepted event was
-- handled and dispatch and all workers wait.
pub Run-serves :
    {n : ℕ} {s : Pool} {k : ℕ} {t : Pool}
    → 0 < n
    → InTime n s
    → s.cancelled ≡ false
    → s.stopping ≡ false
    → Run (Prompt n) s k t
    → (k ≤ work n s) × (IsServed n t ⊎ ((u : Pool) × Prompt n t u))
Run-serves {n} l r c o =
    Run-goes_on (Prompt n) (λ s t m. record { step = m.step; internal = m.internal }) (IsPlain n)
      (IsServed n) Prompt-IsPlain (λ s reached plain. moves s plain l) (InTime-Reach r)
      (record { in_time = r; open_yet = record { cancelled = c; stopping = o } })
