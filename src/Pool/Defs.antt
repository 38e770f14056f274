-- ===== src/Pool/Defs.antt =====
-- The goroutines of internal/worker/dispatcher.go and internal/worker/worker.go and their channels.
use reservation_worker.Base.{
  ℕ, ◌*◌, ◌<◌, Bool, true, false, List, [], ◌∷◌, ◌++◌, ◌≡◌, ◌⊎◌, ltb, eqb, length, if◌then◌else◌,
}
use reservation_worker.Event.{Event}

-- Where the goroutine of a worker stands: before the send of its channel to the pool, at its
-- `select`, in HandleEvent, or returned. `absent` is for a number that no worker has.
pub data WorkerAt : Type 0 where
  absent : WorkerAt
  registering : WorkerAt
  selecting : WorkerAt
  handling : Event → WorkerAt
  gone : WorkerAt

-- Where `dispatch` stands: at its outer `select`, waiting for a worker with an event, sending an
-- event to the worker of this number, or returned.
pub data DispatchAt : Type 0 where
  choosing : DispatchAt
  holding : Event → DispatchAt
  sending : Event → ℕ → DispatchAt
  returned : DispatchAt

-- What became of an event that left the queue.
pub data Fate : Type 0 where
  delivered : ℕ → Fate
  no_worker : Fate
  not_received : Fate

-- `queue` and `idle` are the buffers of eventsChan and workerPool, oldest first; a worker's channel
-- is named by its number. `accepted`, `settled` and `handled` are the history of the sends to
-- eventsChan, of the events that dispatch is done with and of those whose HandleEvent returned, oldest
-- first. `active` is the gauge ActiveWorkers; `announced` tells that Start has set it.
pub record Pool : Type 0 where
  pub queue : List Event
  pub idle : List ℕ
  pub dispatcher : DispatchAt
  pub workers : ℕ → WorkerAt
  pub cancelled : Bool
  pub stopping : Bool
  pub active : ℕ
  pub announced : Bool
  pub accepted : List Event
  pub settled : List (Event × Fate)
  pub handled : List Event

abbrev pub update {ℓ} : {A : Type ℓ} → (ℕ → A) → ℕ → A → ℕ → A
update f i a j = if eqb i j then a else f j

-- Where Start with this concurrency has made its goroutines, none of which has moved.
abbrev pub started : ℕ → Pool
started n = record {
  queue = [];
  idle = [];
  dispatcher = choosing;
  workers = λ i. if ltb i n then registering else absent;
  cancelled = false;
  stopping = false;
  active = 0;
  announced = false;
  accepted = [];
  settled = [];
  handled = [];
}

-- One step of one goroutine. A timeout of dispatch may come at any time: a goroutine may be late.
pub data Step (n : ℕ) (s : Pool) : Pool → Type 0 where
  -- the poller sends to eventsChan, which holds 2 * n events
  enqueue :
      (e : Event)
      → length s.queue < n * 2
      → Step n s (record s { queue = s.queue ++ e ∷ []; accepted = s.accepted ++ e ∷ [] })
  -- the same, straight to a dispatch that waits at an empty channel
  hand_over :
      (e : Event)
      → s.dispatcher ≡ choosing
      → s.queue ≡ []
      → Step n s (record s { dispatcher = holding e; accepted = s.accepted ++ e ∷ [] })
  -- case event := <-d.eventsChan
  receive :
      (e : Event) (rest : List Event)
      → s.dispatcher ≡ choosing
      → s.queue ≡ e ∷ rest
      → Step n s (record s { dispatcher = holding e; queue = rest })
  -- case <-ctx.Done(), case <-d.stopChan
  stop_dispatch :
      s.dispatcher ≡ choosing
      → (s.cancelled ≡ true) ⊎ (s.stopping ≡ true)
      → Step n s (record s { dispatcher = returned })
  -- case workerChan := <-d.workerPool
  pick :
      (e : Event) (i : ℕ) (rest : List ℕ)
      → s.dispatcher ≡ holding e
      → s.idle ≡ i ∷ rest
      → Step n s (record s { dispatcher = sending e i; idle = rest })
  -- case <-time.After(30 * time.Second)
  give_up :
      (e : Event)
      → s.dispatcher ≡ holding e
      → Step n s (record s { dispatcher = choosing; settled = s.settled ++ (e, no_worker) ∷ [] })
  -- case workerChan <- event, and case event := <-w.eventChan of the worker
  deliver :
      (e : Event) (i : ℕ)
      → s.dispatcher ≡ sending e i
      → s.workers i ≡ selecting
      → Step n s (record s {
        dispatcher = choosing;
        workers = update s.workers i (handling e);
        settled = s.settled ++ (e, delivered i) ∷ [];
      })
  -- case <-time.After(5 * time.Second)
  time_out :
      (e : Event) (i : ℕ)
      → s.dispatcher ≡ sending e i
      → Step n s (record s { dispatcher = choosing; settled = s.settled ++ (e, not_received) ∷ [] })
  -- w.workerPool <- w.eventChan, a channel that holds n
  register :
      (i : ℕ)
      → s.workers i ≡ registering
      → length s.idle < n
      → Step n s (record s { idle = s.idle ++ i ∷ []; workers = update s.workers i selecting })
  -- case <-ctx.Done() of the worker
  stop_worker :
      (i : ℕ)
      → s.workers i ≡ selecting
      → s.cancelled ≡ true
      → Step n s (record s { workers = update s.workers i gone })
  -- HandleEvent returns
  finish :
      (e : Event) (i : ℕ)
      → s.workers i ≡ handling e
      → Step n s
          (record s { workers = update s.workers i registering; handled = s.handled ++ e ∷ [] })
  -- cancel() and Stop of main
  cancel : Step n s (record s { cancelled = true })
  close_stop : Step n s (record s { stopping = true })
  -- Start sets the gauge, after it has started its goroutines
  set_gauge : s.announced ≡ false → Step n s (record s { active = n; announced = true })
  -- d.wg.Wait() of a Stop that overtakes Start returns at once, and Stop sets the gauge
  end_early : s.stopping ≡ true → s.announced ≡ false → Step n s (record s { active = 0 })
  -- d.wg.Wait() of Stop returns, and Stop sets the gauge
  end_stop :
      s.stopping ≡ true
      → s.dispatcher ≡ returned
      → ((i : ℕ) → i < n → s.workers i ≡ gone)
      → Step n s (record s { active = 0 })

pub data Reach (n : ℕ) : Pool → Type 0 where
  start : Reach n (started n)
  later : {s t : Pool} → Reach n s → Step n s t → Reach n t
