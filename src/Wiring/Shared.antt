-- ===== src/Wiring/Shared.antt =====
-- What the objects of internal/worker share, and what they do not.
use reservation_worker.Base.{
  ◌⊎◌, inl, inr, Bool-cases, ltb, ltb→lt, ◌≤◌, ◌-◌, ◌^◌, ◌∙◌, scale, to_int64, to_int64-Fits, ℕ,
  zero, suc, ◌+◌, ◌++◌, pos_part, length-append, ◌*◌, ◌<◌, Option, none, some, List, [], ◌∷◌, ◌≡◌,
  ◌≢◌, refl, arith, All, pos, negsuc, ℤ, length, ap,
}
use mathlib.Core.List.{append_assoc}
use reservation_worker.Config.{Config}
use reservation_worker.Wiring.Defs.{
  new_worker, set_at, new_sqs_poller, Address, Channel, Parts, Worker, Dispatcher, new_dispatcher,
  nil_workers, fill_workers, start_workers, SqsPoller, dispatcher_of, join, wire,
}

-- No two of these numbers are equal.
abbrev pub Distinct : List ℕ → Type 0
Distinct [] = Unit
Distinct (x ∷ xs) = All (λ y. x ≢ y) xs × Distinct xs

-- The numbers of the workers' channels.
abbrev pub channels_of : List (Option Worker) → List ℕ
channels_of [] = []
channels_of (none ∷ rest) = channels_of rest
channels_of (some w ∷ rest) = w.event_chan.number ∷ channels_of rest

-- From the number `i` on the workers are there, with the pool's channel, an unbuffered one of their own,
-- and this logger and these metrics.
abbrev pub AreWorkers : Channel → Address → Address → ℕ → List (Option Worker) → Type 0
AreWorkers pool l m i [] = Unit
AreWorkers pool l m i (none ∷ rest) = ⊥
AreWorkers pool l m i (some w ∷ rest) =
    (w.id ≡ i)
    × (w.worker_pool ≡ pool)
    × (w.event_chan.capacity ≡ 0)
    × (w.logger ≡ l)
    × (w.metrics ≡ m)
    × AreWorkers pool l m (suc i) rest

-- The parts in one state of the process.
pub record IsWired (n : ℕ) (cfg : Config) (parts : Parts) (d : Dispatcher) (p : SqsPoller)
    : Type 0 where
  pub one_channel : p.events_chan ≡ d.events_chan
  pub room : d.events_chan.capacity ≡ n * 2
  pub pool_room : d.worker_pool.capacity ≡ n
  pub as_many : length d.workers ≡ n
  pub workers : AreWorkers d.worker_pool d.logger d.metrics 0 d.workers
  pub distinct : Distinct (
      d.events_chan.number
      ∷ d.worker_pool.number
      ∷ d.stop_chan.number
      ∷ p.stop_chan.number
      ∷ channels_of d.workers)
  pub metrics :
      (d.metrics ≡ p.metrics)
      × (d.expired_handler.metrics ≡ p.metrics)
      × (d.approved_handler.metrics ≡ p.metrics)
      × (d.failed_handler.metrics ≡ p.metrics)
  pub clients :
      (d.expired_handler.inventory_client ≡ parts.inventory_client)
      × (d.approved_handler.inventory_client ≡ parts.inventory_client)
      × (d.failed_handler.inventory_client ≡ parts.inventory_client)
      × (d.expired_handler.reservation_client ≡ parts.reservation_client)
      × (d.approved_handler.reservation_client ≡ parts.reservation_client)
      × (d.failed_handler.reservation_client ≡ parts.reservation_client)

-- `k` new workers, from the number `i` on.
abbrev workers_from : Channel → ℕ → ℕ → ℕ → ℕ → ℕ → List (Option Worker)
workers_from pool l m i zero next = []
workers_from pool l m i (suc k) next =
    some (new_worker i pool l m next).0 ∷ workers_from pool l m (suc i) k (suc next)

set_at-length :
    (x y : Option Worker) (before rest : List (Option Worker))
    → set_at (length before) x (before ++ y ∷ rest) ≡ some (before ++ x ∷ rest)
set_at-length x y [] rest = refl
set_at-length x y (z ∷ before) rest = rw (set_at-length x y before rest) refl

-- The loop fills the places that are still nil.
fill_workers-workers_from :
    (pool : Channel) (l m k next : ℕ) (before : List (Option Worker))
    → fill_workers pool l m (length before) k (before ++ nil_workers k) next
      ≡ some (before ++ workers_from pool l m (length before) k next, next + k)
unfolding fill_workers
fill_workers-workers_from pool l m zero next before =
    ap (λ (last : ℕ). some (before ++ [], last)) (omega arith)
fill_workers-workers_from pool l m (suc k) next before =
    let i = length before in
    let w : Option Worker = some (new_worker i pool l m next).0 in
    let rest = fill_workers-workers_from pool l m k (suc next) (before ++ w ∷ []) in
    let longer : length (before ++ w ∷ []) ≡ suc i = omega (arith, length-append before (w ∷ [])) in
    let counted : next + suc k ≡ suc next + k = omega arith in
    let given = append_assoc before (w ∷ []) (nil_workers k) in
    let made = append_assoc before (w ∷ []) (workers_from pool l m (suc i) k (suc next)) in
    rw (set_at-length w none before (nil_workers k), fill_workers, counted)
      (rw (longer, given, made) at rest)

workers_from-channels :
    (pool : Channel) (l m i n next b : ℕ)
    → b < next
    → let made = workers_from pool l m i n next in
      All (λ y. b ≢ y) (channels_of made) × Distinct (channels_of made)
workers_from-channels pool l m i zero next b h = (tt, tt)
workers_from-channels pool l m i (suc n) next b h =
    let (above, rest) = workers_from-channels pool l m (suc i) n (suc next) next (omega arith) in
    let (other, rest') = workers_from-channels pool l m (suc i) n (suc next) b (omega arith) in
    ((omega arith, other), (above, rest))

workers_from-AreWorkers :
    (pool : Channel) (l m i n next : ℕ) → AreWorkers pool l m i (workers_from pool l m i n next)
workers_from-AreWorkers pool l m i zero next = tt
workers_from-AreWorkers pool l m i (suc n) next =
    (refl, refl, refl, refl, refl, workers_from-AreWorkers pool l m (suc i) n (suc next))

length-workers_from :
    (pool : Channel) (l m i n next : ℕ) → length (workers_from pool l m i n next) ≡ n
length-workers_from pool l m i zero next = refl
length-workers_from pool l m i (suc n) next =
    ap suc (length-workers_from pool l m (suc i) n (suc next))

new_dispatcher-dispatcher_of :
    (cfg : Config) (parts : Parts) (next n : ℕ)
    → cfg.worker_concurrency ≡ pos n
    → n < 2 ^ 62
    → new_dispatcher cfg parts next ≡ some (dispatcher_of cfg parts (n * 2) n next)
unfolding new_dispatcher scale
new_dispatcher-dispatcher_of cfg parts next n h small =
    let double : to_int64 (scale cfg.worker_concurrency 2) ≡ pos (n * 2) =
      ap (λ c. to_int64 (scale c 2)) h ∙ to_int64-Fits (pos (n * 2)) (omega arith) in
    ap
      (λ (room : ℤ). elim room [
        | negsuc k ↦ none
        | pos k ↦ elim cfg.worker_concurrency [
          | negsuc m ↦ none
          | pos m ↦ some (dispatcher_of cfg parts k m next)
        ]
      ])
      double
    ∙ ap
        (λ (c : ℤ). elim c [
          | negsuc m ↦ none
          | pos m ↦ some (dispatcher_of cfg parts (n * 2) m next)
        ])
        h

module _ (cfg : Config) (parts : Parts) (n next : ℕ) where
  abbrev made : Dispatcher
  made = (dispatcher_of cfg parts (n * 2) n next).0

  -- The first number that the constructors leave.
  abbrev free : ℕ
  free = suc (suc (suc (suc next)))

  abbrev wired_dispatcher : Dispatcher
  wired_dispatcher = record made {
    workers = workers_from made.worker_pool made.logger made.metrics 0 n free;
  }

  abbrev wired_poller : SqsPoller
  wired_poller =
      (new_sqs_poller cfg parts.logger parts.metrics made.events_chan (suc (suc (suc next)))).0

  filled :
      (c : ℕ)
      → c ≡ n
      → fill_workers made.worker_pool made.logger made.metrics 0 c made.workers free
        ≡ some (workers_from made.worker_pool made.logger made.metrics 0 n free, free + n)
  filled c h = rw h (fill_workers-workers_from made.worker_pool made.logger made.metrics n free [])

  start_workers-wired_dispatcher :
      cfg.worker_concurrency ≡ pos n → start_workers made free ≡ some (wired_dispatcher, free + n)
  unfolding start_workers
  start_workers-wired_dispatcher h =
      rw (filled (pos_part cfg.worker_concurrency) (ap pos_part h), start_workers) refl

  join-wired_dispatcher :
      cfg.worker_concurrency ≡ pos n
      → join cfg parts (dispatcher_of cfg parts (n * 2) n next)
        ≡ some (wired_dispatcher, wired_poller)
  unfolding join
  join-wired_dispatcher h = rw (start_workers-wired_dispatcher h, join) refl

  wired_dispatcher-IsWired : IsWired n cfg parts wired_dispatcher wired_poller
  wired_dispatcher-IsWired =
      let others = λ (b : ℕ) (h : b < free).
        workers_from-channels made.worker_pool made.logger made.metrics 0 n free b h in
      record {
        one_channel = refl;
        room = refl;
        pool_room = refl;
        as_many = length-workers_from made.worker_pool made.logger made.metrics 0 n free;
        workers = workers_from-AreWorkers made.worker_pool made.logger made.metrics 0 n free;
        distinct = (
          (omega arith, (omega arith, (omega arith, (others next (omega arith)).0))),
          (
            (omega arith, (omega arith, (others (suc next) (omega arith)).0)),
            (
              (omega arith, (others (suc (suc next)) (omega arith)).0),
              others (suc (suc (suc next))) (omega arith),
            ),
          ),
        );
        metrics = (refl, refl, refl, refl);
        clients = (refl, refl, refl, refl, refl, refl);
      }

-- A concurrency whose double does not fit an int of 64 bits.
new_dispatcher-none :
    (cfg : Config) (parts : Parts) (next n : ℕ)
    → cfg.worker_concurrency ≡ pos n
    → 2 ^ 62 ≤ n
    → n < 2 ^ 63
    → new_dispatcher cfg parts next ≡ none
unfolding new_dispatcher scale to_int64
new_dispatcher-none cfg parts next n h large fits =
    let wrapped : to_int64 (pos (n * 2)) ≡ negsuc (2 ^ 64 - n * 2 - 1) = ground arith in
    let double : to_int64 (scale cfg.worker_concurrency 2) ≡ negsuc (2 ^ 64 - n * 2 - 1) =
      ap (λ c. to_int64 (scale c 2)) h ∙ wrapped in
    ap
      (λ (room : ℤ). elim room [
        | negsuc k ↦ none
        | pos k ↦ elim cfg.worker_concurrency [
          | negsuc m ↦ none
          | pos m ↦ some (dispatcher_of cfg parts k m next)
        ]
      ])
      double

-- With a concurrency of n, an int, main wires one dispatcher and one poller: both use one channel of
-- events, with room for 2 * n; the pool has room for n channels; the n workers are numbered from 0,
-- each with an unbuffered channel of its own, and no two channels of the process are the same; the
-- dispatcher, the poller, the workers and the handlers record in one Metrics, and the handlers use the
-- two clients. Exactly from 2 ^ 62 on the double wraps around to a negative size, and main panics
-- instead.
pub wire-IsWired :
    (cfg : Config) (parts : Parts) (next n : ℕ)
    → cfg.worker_concurrency ≡ pos n
    → n < 2 ^ 63
    → ((n < 2 ^ 62)
        × (d : Dispatcher) × (p : SqsPoller) × (wire cfg parts next ≡ some (d, p))
        × IsWired n cfg parts d p)
      ⊎ ((2 ^ 62 ≤ n) × (wire cfg parts next ≡ none))
unfolding wire
wire-IsWired cfg parts next n h fits = elim (Bool-cases (ltb n (2 ^ 62))) [
  | inl less ↦
      let small = ltb→lt n (2 ^ 62) less in
      inl (
        small,
        wired_dispatcher cfg parts n next,
        wired_poller cfg parts n next,
        rw (new_dispatcher-dispatcher_of cfg parts next n h small, wire)
            (join-wired_dispatcher cfg parts n next h),
        wired_dispatcher-IsWired cfg parts n next,
      )
  | inr more ↦
      let large : 2 ^ 62 ≤ n = ground arith in
      inr (large, rw (new_dispatcher-none cfg parts next n h large fits, wire) refl)
]
