-- ===== src/Process/Shutdown.antt =====
-- main of cmd/reservation-worker/main.go from its wait for a signal on, beside the goroutines of its
-- wait group and those of the worker pool.
use reservation_worker.Base.{ℕ, Bool, true, false, ◌≡◌, ◌⊎◌}
use reservation_worker.Pool.{Pool, started}
use reservation_worker.Pool.Defs.{Step, enqueue, hand_over}
use reservation_worker.Pool.Work.{is_internal}
use reservation_worker.Pool.Gauge.{IsAtRest}

pub data Ending : Type 0 where
  graceful : Ending
  forced : Ending

-- Where main stands: at `<-sigChan`; behind cancel(), behind poller.Stop(), inside and behind
-- dispatcher.Stop(), behind grpcServer.Stop() at the last `select`, or returned.
pub data MainAt : Type 0 where
  waiting : MainAt
  signalled : MainAt
  poller_stopped : MainAt
  pool_stopping : MainAt
  pool_stopped : MainAt
  waiting_all : MainAt
  exited : Ending → MainAt

-- `http`, `grpc`, `starter` and `poller` tell which goroutines of the wait group still run: the ones
-- that call startHTTPServer, GRPCServer.Start, Dispatcher.Start and SQSPoller.Start; the third is at an
-- end when `starter` is false and the gauge is set. Until `starter` is false, dispatch and the workers of `pool` are those that it is about to start. `overtaken` tells
-- that dispatcher.Stop() returned before that.
pub record Process : Type 0 where
  pub pool : Pool
  pub main : MainAt
  pub http : Bool
  pub grpc : Bool
  pub starter : Bool
  pub poller : Bool
  pub poller_stop : Bool
  pub overtaken : Bool

-- After "Reservation worker started successfully".
abbrev pub launched : ℕ → Process
launched n = record {
  pool = started n;
  main = waiting;
  http = true;
  grpc = true;
  starter = true;
  poller = true;
  poller_stop = false;
  overtaken = false;
}

-- A step that the poller makes in the pool.
abbrev pub is_send : {n : ℕ} {s t : Pool} → Step n s t → Bool
is_send (enqueue _ _) = true
is_send (hand_over _ _ _) = true
is_send _ = false

-- One that needs no goroutine to take the event.
abbrev pub is_enqueue : {n : ℕ} {s t : Pool} → Step n s t → Bool
is_enqueue (enqueue _ _) = true
is_enqueue _ = false

-- One step of one goroutine.
pub data Turn (n : ℕ) (s : Process) : Process → Type 0 where
  -- dispatch or a worker
  pool_turn :
      {p : Pool} (st : Step n s.pool p)
      → is_internal st ≡ true
      → s.starter ≡ false
      → Turn n s (record s { pool = p })
  -- the poller hands over an event
  send :
      {p : Pool} (st : Step n s.pool p)
      → is_send st ≡ true
      → (s.starter ≡ false) ⊎ (is_enqueue st ≡ true)
      → s.poller ≡ true
      → Turn n s (record s { pool = p })
  -- ListenAndServe returns, which it does only with an error: nothing shuts the server down
  http_fails : s.http ≡ true → Turn n s (record s { http = false })
  -- net.Listen fails
  grpc_fails : s.grpc ≡ true → Turn n s (record s { grpc = false })
  -- <-ctx.Done() and GracefulStop of GRPCServer.Start
  grpc_ends : s.grpc ≡ true → s.pool.cancelled ≡ true → Turn n s (record s { grpc = false })
  -- Dispatcher.Start starts its goroutines, in one step
  starter_ends : s.starter ≡ true → Turn n s (record s { starter = false })
  -- Dispatcher.Start sets the gauge and returns
  gauge_set :
      s.starter ≡ false
      → s.pool.announced ≡ false
      → Turn n s (record s { pool = record s.pool { active = n; announced = true } })
  -- SQSPoller.Start returns
  poller_ends :
      s.poller ≡ true
      → (s.pool.cancelled ≡ true) ⊎ (s.poller_stop ≡ true)
      → Turn n s (record s { poller = false })
  -- <-sigChan and cancel()
  signal :
      s.main ≡ waiting
      → Turn n s (record s { main = signalled; pool = record s.pool { cancelled = true } })
  -- poller.Stop()
  stop_poller :
      s.main ≡ signalled → Turn n s (record s { main = poller_stopped; poller_stop = true })
  -- dispatcher.Stop() closes its channel, and later returns from its wait
  stop_pool :
      s.main ≡ poller_stopped
      → Turn n s (record s { main = pool_stopping; pool = record s.pool { stopping = true } })
  pool_ends :
      s.main ≡ pool_stopping
      → s.starter ≡ false
      → IsAtRest n s.pool
      → Turn n s (record s { main = pool_stopped; pool = record s.pool { active = 0 } })
  -- the same before Dispatcher.Start has added to the wait group of the pool: there is nothing to wait
  -- for, and Start sets the gauge later
  overtakes :
      s.main ≡ pool_stopping
      → s.starter ≡ true
      → Turn n s
          (record s { main = pool_stopped; overtaken = true; pool = record s.pool { active = 0 } })
  -- grpcServer.Stop()
  stop_grpc : s.main ≡ pool_stopped → Turn n s (record s { main = waiting_all })
  -- case <-done, after wg.Wait()
  all_done :
      s.main ≡ waiting_all
      → s.http ≡ false
      → s.grpc ≡ false
      → s.starter ≡ false
      → s.pool.announced ≡ true
      → s.poller ≡ false
      → Turn n s (record s { main = exited graceful })
  -- case <-time.After(30 * time.Second)
  time_out : s.main ≡ waiting_all → Turn n s (record s { main = exited forced })

pub data Reach (n : ℕ) : Process → Type 0 where
  launch : Reach n (launched n)
  after : {s t : Process} → Reach n s → Turn n s t → Reach n t
