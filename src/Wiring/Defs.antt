-- ===== src/Wiring/Defs.antt =====
-- The objects of internal/worker and internal/handler, with what they refer to.
use reservation_worker.Base.{
  to_int64, scale, ℕ, zero, suc, String, Option, none, some, List, [], ◌∷◌, ℤ, pos, negsuc,
  to_int32, pos_part,
}
use reservation_worker.Config.{Config}

-- The address of an object that is shared by its pointer.
abbrev pub Address : Type 0
Address = ℕ

-- A channel with its buffer's capacity. `make` gives each a number of its own.
pub record Channel : Type 0 where
  pub number : ℕ
  pub capacity : ℕ

-- The `next` argument of a constructor is the next free number.
abbrev pub make_chan : ℕ → ℕ → Channel × ℕ
make_chan capacity next = (record { number = next; capacity = capacity }, suc next)

-- What main has made before the dispatcher.
pub record Parts : Type 0 where
  pub inventory_client : Address
  pub reservation_client : Address
  pub logger : Address
  pub metrics : Address

pub record ExpiredHandler : Type 0 where
  pub inventory_client : Address
  pub reservation_client : Address
  pub logger : Address
  pub metrics : Address

pub record ApprovedHandler : Type 0 where
  pub inventory_client : Address
  pub reservation_client : Address
  pub logger : Address
  pub metrics : Address

pub record FailedHandler : Type 0 where
  pub inventory_client : Address
  pub reservation_client : Address
  pub logger : Address
  pub metrics : Address

abbrev pub new_expired_handler : Address → Address → Address → Address → ExpiredHandler
new_expired_handler inventory reservation l m = record {
  inventory_client = inventory;
  reservation_client = reservation;
  logger = l;
  metrics = m;
}

abbrev pub new_approved_handler : Address → Address → Address → Address → ApprovedHandler
new_approved_handler inventory reservation l m = record {
  inventory_client = inventory;
  reservation_client = reservation;
  logger = l;
  metrics = m;
}

abbrev pub new_failed_handler : Address → Address → Address → Address → FailedHandler
new_failed_handler inventory reservation l m = record {
  inventory_client = inventory;
  reservation_client = reservation;
  logger = l;
  metrics = m;
}

-- The field `dispatcher` of a worker, whose HandleEvent it calls, is left out: there is one dispatcher.
pub record Worker : Type 0 where
  pub id : ℕ
  pub worker_pool : Channel
  pub event_chan : Channel
  pub logger : Address
  pub metrics : Address

abbrev pub new_worker : ℕ → Channel → Address → Address → ℕ → Worker × ℕ
new_worker id worker_pool l m next =
    let (event_chan, after) = make_chan 0 next in
    (
      record {
        id = id;
        worker_pool = worker_pool;
        event_chan = event_chan;
        logger = l;
        metrics = m;
      },
      after,
    )

-- The slice of workers holds `none` for nil.
pub record Dispatcher : Type 0 where
  pub concurrency : ℤ
  pub events_chan : Channel
  pub worker_pool : Channel
  pub workers : List (Option Worker)
  pub stop_chan : Channel
  pub logger : Address
  pub metrics : Address
  pub expired_handler : ExpiredHandler
  pub approved_handler : ApprovedHandler
  pub failed_handler : FailedHandler
  pub config : Config

-- `make([]*Worker, n)`
abbrev pub nil_workers : ℕ → List (Option Worker)
nil_workers zero = []
nil_workers (suc n) = none ∷ nil_workers n

-- NewDispatcher where neither the concurrency n nor its double `room` is negative.
abbrev pub dispatcher_of : Config → Parts → ℕ → ℕ → ℕ → Dispatcher × ℕ
dispatcher_of cfg parts room n next =
    let (events_chan, next₁) = make_chan room next in
    let (worker_pool, next₂) = make_chan n next₁ in
    let (stop_chan, next₃) = make_chan 0 next₂ in
    (
      record {
        concurrency = cfg.worker_concurrency;
        events_chan = events_chan;
        worker_pool = worker_pool;
        workers = nil_workers n;
        stop_chan = stop_chan;
        logger = parts.logger;
        metrics = parts.metrics;
        expired_handler =
            new_expired_handler parts.inventory_client parts.reservation_client parts.logger
              parts.metrics;
        approved_handler =
            new_approved_handler parts.inventory_client parts.reservation_client parts.logger
              parts.metrics;
        failed_handler =
            new_failed_handler parts.inventory_client parts.reservation_client parts.logger
              parts.metrics;
        config = cfg;
      },
      next₃,
    )

-- NewDispatcher. `none` is the panic of make at a negative size; the double, an int, wraps around.
unfoldable pub new_dispatcher : Config → Parts → ℕ → Option (Dispatcher × ℕ)
new_dispatcher cfg parts next = elim (to_int64 (scale cfg.worker_concurrency 2)) [
  | negsuc room ↦ none
  | pos room ↦ elim cfg.worker_concurrency [
    | negsuc n ↦ none
    | pos n ↦ some (dispatcher_of cfg parts room n next)
  ]
]

abbrev pub get_events_chan : Dispatcher → Channel
get_events_chan d = d.events_chan

-- `workers[i] = worker`. `none` is the panic of an index out of range.
abbrev pub set_at {ℓ} : {A : Type ℓ} → ℕ → A → List A → Option (List A)
set_at i x [] = none
set_at zero x (y ∷ rest) = some (x ∷ rest)
set_at (suc i) x (y ∷ rest) = elim (set_at i x rest) [
  | none ↦ none
  | some placed ↦ some (y ∷ placed)
]

-- The loop of Dispatcher.Start from `i` on, with `k` workers to go.
unfoldable pub fill_workers :
    Channel
    → Address
    → Address
    → ℕ
    → ℕ
    → List (Option Worker)
    → ℕ
    → Option (List (Option Worker) × ℕ)
fill_workers worker_pool l m i zero workers next = some (workers, next)
fill_workers worker_pool l m i (suc k) workers next =
    let (worker, after) = new_worker i worker_pool l m next in
    elim (set_at i (some worker) workers) [
      | none ↦ none
      | some placed ↦ fill_workers worker_pool l m (suc i) k placed after
    ]

-- Dispatcher.Start, as far as it makes objects.
unfoldable pub start_workers : Dispatcher → ℕ → Option (Dispatcher × ℕ)
unfolding fill_workers
start_workers d next =
    elim (fill_workers d.worker_pool d.logger d.metrics 0 (pos_part d.concurrency) d.workers next) [
      | none ↦ none
      | some (workers, last) ↦ some (record d { workers = workers }, last)
    ]

pub record SqsPoller : Type 0 where
  pub queue_url : String
  pub wait_time : ℤ
  pub logger : Address
  pub metrics : Address
  pub events_chan : Channel
  pub stop_chan : Channel
  pub config : Config

abbrev pub new_sqs_poller : Config → Address → Address → Channel → ℕ → SqsPoller × ℕ
new_sqs_poller cfg l m events_chan next =
    let (stop_chan, after) = make_chan 0 next in
    (
      record {
        queue_url = cfg.sqs_queue_url;
        wait_time = to_int32 cfg.sqs_wait_time;
        logger = l;
        metrics = m;
        events_chan = events_chan;
        stop_chan = stop_chan;
        config = cfg;
      },
      after,
    )

-- The poller on the dispatcher's channel, and, once Dispatcher.Start has run, the workers.
unfoldable pub join : Config → Parts → Dispatcher × ℕ → Option (Dispatcher × SqsPoller)
unfolding start_workers
join cfg parts (d, next) =
    let (p, after) = new_sqs_poller cfg parts.logger parts.metrics (get_events_chan d) next in
    elim (start_workers d after) [ none ↦ none | some (started, last) ↦ some (started, p) ]

-- What main makes of its parts.
unfoldable pub wire : Config → Parts → ℕ → Option (Dispatcher × SqsPoller)
unfolding new_dispatcher join
wire cfg parts next = elim (new_dispatcher cfg parts next) [
  | none ↦ none
  | some made ↦ join cfg parts made
]
