-- ===== src/Process/Race.antt =====
-- A shutdown of cmd/reservation-worker/main.go that comes before Dispatcher.Start.
use reservation_worker.Base.{ℕ, zero, suc, ◌<◌, true, [], ◌∷◌, ◌≡◌, inr, refl, arith}
use reservation_worker.Event.{Event}
use reservation_worker.Pool.Defs.{handling, started, enqueue, register, receive, pick, deliver}
use reservation_worker.Process.Shutdown.{
  forced, pool_stopped, exited, Process, launched, pool_turn, send, starter_ends, signal,
  stop_poller, stop_pool, overtakes, stop_grpc, time_out, Reach, launch, after,
}

-- dispatcher.Stop() has returned with an event queued, and Dispatcher.Start has not begun.
abbrev early : ℕ → Event → Process
early n e = record (launched n) {
  main = pool_stopped;
  poller_stop = true;
  overtaken = true;
  pool = record (started n) {
    queue = e ∷ [];
    accepted = e ∷ [];
    cancelled = true;
    stopping = true;
  };
}

early-Reach : (n : ℕ) (e : Event) → 0 < n → Reach n (early n e)
early-Reach n e l =
    after
      (after
        (after
          (after (after launch (send (enqueue e (omega arith)) refl (inr refl) refl)) (signal refl))
          (stop_poller refl))
        (stop_pool refl))
      (overtakes refl refl)

-- The shutdown may overtake Dispatcher.Start: then dispatcher.Stop() waits for nothing, and main may
-- return while a worker handles an event. With at least one worker this can happen with any event.
pub start_may_be_overtaken :
    (n : ℕ) (e : Event)
    → 0 < n
    → (s : Process) × Reach n s × (s.main ≡ exited forced) × (s.pool.workers 0 ≡ handling e)
start_may_be_overtaken zero e l = elim l [ ]
start_may_be_overtaken (suc n) e l =
    let r₀ = after (early-Reach (suc n) e l) (starter_ends refl) in
    let r₁ = after r₀ (pool_turn (register 0 (ground arith) (omega arith)) refl refl) in
    let r₂ = after r₁ (pool_turn (receive e [] refl refl) refl refl) in
    let r₃ = after r₂ (pool_turn (pick e 0 [] refl refl) refl refl) in
    let r₄ = after r₃ (pool_turn (deliver e 0 refl refl) refl refl) in
    (_, after (after r₄ (stop_grpc refl)) (time_out refl), refl, refl)
