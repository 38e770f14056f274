-- ===== src/Process/Refine.antt =====
-- The worker pool inside the process of cmd/reservation-worker/main.go.
use reservation_worker.Base.{ℕ, true, false, ◌≡◌, ◌⊎◌, inl, inr, ◌∙◌, refl, arith}
use reservation_worker.Pool.Defs
use reservation_worker.Pool.Work.{is_internal}
use reservation_worker.Process.Exit.{Reach-Phase, Phase-at}
use reservation_worker.Process.Shutdown.{
  is_send, Process, pool_turn, send, http_fails, grpc_fails, grpc_ends, starter_ends, gauge_set,
  poller_ends, signal, stop_poller, stop_pool, pool_ends, overtakes, stop_grpc, all_done, time_out,
  Reach, launch, after,
}

-- Only Start sets the gauge.
Step-announced :
    {n : ℕ} {p q : Defs.Pool} (st : Defs.Step n p q)
    → (is_internal st ≡ true) ⊎ (is_send st ≡ true)
    → q.announced ≡ p.announced
Step-announced (Defs.set_gauge a) h = ground arith
Step-announced st h = refl

-- Before Start has started its goroutines it has not set the gauge.
Reach-unannounced : {n : ℕ} {s : Process} → Reach n s → s.starter ≡ true → s.pool.announced ≡ false
Reach-unannounced launch b = refl
Reach-unannounced (after r (pool_turn st i f)) b = Step-announced st (inl i) ∙ Reach-unannounced r b
Reach-unannounced (after r (send st i f p)) b = Step-announced st (inr i) ∙ Reach-unannounced r b
Reach-unannounced (after r (starter_ends h)) b = absurd (cc)
Reach-unannounced (after r (gauge_set f a)) b = absurd (cc)
Reach-unannounced (after r t) b = Reach-unannounced r b

-- What the process does to the pool are steps of the pool: main's cancel() and Stop among them, and
-- Stop sets the gauge only where the pool allows it. So the pool of every reachable state of the
-- process is a reachable state of the pool.
pub Reach-pool : {n : ℕ} {s : Process} → Reach n s → Defs.Reach n s.pool
Reach-pool launch = Defs.start
Reach-pool (after r (pool_turn st i b)) = Defs.later (Reach-pool r) st
Reach-pool (after r (send st i b p)) = Defs.later (Reach-pool r) st
Reach-pool (after r (http_fails h)) = Reach-pool r
Reach-pool (after r (grpc_fails h)) = Reach-pool r
Reach-pool (after r (grpc_ends h c)) = Reach-pool r
Reach-pool (after r (starter_ends h)) = Reach-pool r
Reach-pool (after r (gauge_set b a)) = Defs.later (Reach-pool r) (Defs.set_gauge a)
Reach-pool (after r (poller_ends h c)) = Reach-pool r
Reach-pool (after r (signal m)) = Defs.later (Reach-pool r) Defs.cancel
Reach-pool (after r (stop_poller m)) = Reach-pool r
Reach-pool (after r (stop_pool m)) = Defs.later (Reach-pool r) Defs.close_stop
Reach-pool {n} (after {s} r (pool_ends m b rest)) =
    Defs.later (Reach-pool r)
      (Defs.end_stop (Phase-at n s m (Reach-Phase r)).1 rest.dispatcher rest.workers)
Reach-pool {n} (after {s} r (overtakes m b)) =
    Defs.later (Reach-pool r)
      (Defs.end_early (Phase-at n s m (Reach-Phase r)).1 (Reach-unannounced r b))
Reach-pool (after r (stop_grpc m)) = Reach-pool r
Reach-pool (after r (all_done m a b c g d)) = Reach-pool r
Reach-pool (after r (time_out m)) = Reach-pool r
