-- ===== src/Process/Exit.antt =====
-- How main of cmd/reservation-worker/main.go comes to its end.
use reservation_worker.Base.{Bool, ◌⊎◌, inl, inr, ℕ, true, false, ◌≡◌, ◌≢◌, ◌∙◌, refl}
use reservation_worker.Pool.{Pool}
use reservation_worker.Pool.Defs
use reservation_worker.Pool.Defs.{Step}
use reservation_worker.Pool.Rest.{Step-cancelled}
use reservation_worker.Pool.Gauge.{IsAtRest, Step-IsAtRest}
use reservation_worker.Process.Shutdown.{
  Ending, graceful, forced, MainAt, waiting, signalled, poller_stopped, pool_stopping, pool_stopped,
  waiting_all, exited, Process, Turn, pool_turn, send, http_fails, grpc_fails, grpc_ends,
  starter_ends, gauge_set, poller_ends, signal, stop_poller, stop_pool, pool_ends, overtakes,
  stop_grpc, all_done, time_out, Reach, launch, after,
}

-- dispatch and the workers have returned, or were not there when Stop waited for them.
abbrev pub IsOver : ℕ → Process → Type 0
IsOver n s = (s.overtaken ≡ true) ⊎ IsAtRest n s.pool

-- Behind dispatcher.Stop().
pub record IsStopped (n : ℕ) (s : Process) : Type 0 where
  pub cancelled : s.pool.cancelled ≡ true
  pub stopping : s.pool.stopping ≡ true
  pub over : IsOver n s

-- The goroutines of the wait group have ended.
pub record IsDone (s : Process) : Type 0 where
  pub http : s.http ≡ false
  pub grpc : s.grpc ≡ false
  pub starter : s.starter ≡ false
  pub poller : s.poller ≡ false

-- What holds where main stands.
abbrev pub Phase : ℕ → MainAt → Process → Type 0
Phase n waiting s = Unit
Phase n signalled s = s.pool.cancelled ≡ true
Phase n poller_stopped s = s.pool.cancelled ≡ true
Phase n pool_stopping s = (s.pool.cancelled ≡ true) × (s.pool.stopping ≡ true)
Phase n pool_stopped s = IsStopped n s
Phase n waiting_all s = IsStopped n s
Phase n (exited graceful) s = IsStopped n s × IsDone s
Phase n (exited forced) s = IsStopped n s

Step-stopping : {n : ℕ} {p q : Pool} → Step n p q → p.stopping ≡ true → q.stopping ≡ true
Step-stopping Defs.close_stop c = refl
Step-stopping st c = c

-- Nothing takes back the context, a stop, the rest or an end.
record Keeps (n : ℕ) (s t : Process) : Type 0 where
  cancelled : s.pool.cancelled ≡ true → t.pool.cancelled ≡ true
  stopping : s.pool.stopping ≡ true → t.pool.stopping ≡ true
  over : IsOver n s → IsOver n t
  done : IsDone s → IsDone t

IsStopped-keep : {n : ℕ} {s t : Process} → Keeps n s t → IsStopped n s → IsStopped n t
IsStopped-keep k h = record {
  cancelled = k.cancelled h.cancelled;
  stopping = k.stopping h.stopping;
  over = k.over h.over;
}

Phase-keep : {n : ℕ} (m : MainAt) (s t : Process) → Keeps n s t → Phase n m s → Phase n m t
Phase-keep waiting s t k h = tt
Phase-keep signalled s t k h = k.cancelled h
Phase-keep poller_stopped s t k h = k.cancelled h
Phase-keep pool_stopping s t k h = (k.cancelled h.0, k.stopping h.1)
Phase-keep pool_stopped s t k h = IsStopped-keep k h
Phase-keep waiting_all s t k h = IsStopped-keep k h
Phase-keep (exited graceful) s t k h = (IsStopped-keep k h.0, k.done h.1)
Phase-keep (exited forced) s t k h = IsStopped-keep k h

IsOver-step :
    {n : ℕ} (s : Process) {p : Pool}
    → Step n s.pool p
    → IsOver n s
    → IsOver n (record s { pool = p })
IsOver-step s st (inl o) = inl o
IsOver-step s st (inr r) = inr (Step-IsAtRest st r)

Step-Keeps : {n : ℕ} (s : Process) {p : Pool} → Step n s.pool p → Keeps n s (record s { pool = p })
Step-Keeps s st = record {
  cancelled = Step-cancelled st;
  stopping = Step-stopping st;
  over = IsOver-step s st;
  done = λ d. record { http = d.http; grpc = d.grpc; starter = d.starter; poller = d.poller };
}

-- A goroutine of the wait group ends.
flags-Keeps :
    {n : ℕ} (s : Process) (http grpc starter poller : Bool)
    → let t = record s { http = http; grpc = grpc; starter = starter; poller = poller } in
      (IsDone s → IsDone t) → Keeps n s t
flags-Keeps s http grpc starter poller d = record {
  cancelled = λ c. c;
  stopping = λ c. c;
  over = λ o. o;
  done = d;
}

IsStopped-main :
    {n : ℕ} (s : Process) (m : MainAt) → IsStopped n s → IsStopped n (record s { main = m })
IsStopped-main s m h = record { cancelled = h.cancelled; stopping = h.stopping; over = h.over }

-- Where main stands is known.
pub Phase-at : (n : ℕ) {l m : MainAt} (s : Process) → l ≡ m → Phase n l s → Phase n m s
Phase-at n s e h = rw e at h

Turn-Phase : {n : ℕ} {s t : Process} → Turn n s t → Phase n s.main s → Phase n t.main t
Turn-Phase {s} (pool_turn st i b) h = Phase-keep s.main s _ (Step-Keeps s st) h
Turn-Phase {s} (send st i b p) h = Phase-keep s.main s _ (Step-Keeps s st) h
Turn-Phase {s} (http_fails r) h =
    Phase-keep s.main s _
      (flags-Keeps s false s.grpc s.starter s.poller
        (λ d. record { http = refl; grpc = d.grpc; starter = d.starter; poller = d.poller }))
      h
Turn-Phase {s} (grpc_fails r) h =
    Phase-keep s.main s _
      (flags-Keeps s s.http false s.starter s.poller
        (λ d. record { http = d.http; grpc = refl; starter = d.starter; poller = d.poller }))
      h
Turn-Phase {s} (grpc_ends r c) h =
    Phase-keep s.main s _
      (flags-Keeps s s.http false s.starter s.poller
        (λ d. record { http = d.http; grpc = refl; starter = d.starter; poller = d.poller }))
      h
Turn-Phase {s} (starter_ends r) h =
    Phase-keep s.main s _
      (flags-Keeps s s.http s.grpc false s.poller
        (λ d. record { http = d.http; grpc = d.grpc; starter = refl; poller = d.poller }))
      h
Turn-Phase {s} (gauge_set b a) h = Phase-keep s.main s _ (Step-Keeps s (Defs.set_gauge a)) h
Turn-Phase {s} (poller_ends r c) h =
    Phase-keep s.main s _
      (flags-Keeps s s.http s.grpc s.starter false
        (λ d. record { http = d.http; grpc = d.grpc; starter = d.starter; poller = refl }))
      h
Turn-Phase (signal m) h = refl
Turn-Phase {n} {s} (stop_poller m) h = Phase-at n s m h
Turn-Phase {n} {s} (stop_pool m) h = (Phase-at n s m h, refl)
Turn-Phase {n} {s} (pool_ends m b r) h =
    let told = Phase-at n s m h in
    record {
      cancelled = told.0;
      stopping = told.1;
      over = inr (record { dispatcher = r.dispatcher; workers = r.workers });
    }
Turn-Phase {n} {s} (overtakes m b) h =
    let told = Phase-at n s m h in record { cancelled = told.0; stopping = told.1; over = inl refl }
Turn-Phase {n} {s} (stop_grpc m) h = IsStopped-main s _ (Phase-at n s m h)
Turn-Phase {n} {s} (all_done m a b c g d) h =
    (IsStopped-main s _ (Phase-at n s m h), record { http = a; grpc = b; starter = c; poller = d })
Turn-Phase {n} {s} (time_out m) h = IsStopped-main s _ (Phase-at n s m h)

pub Reach-Phase : {n : ℕ} {s : Process} → Reach n s → Phase n s.main s
Reach-Phase launch = tt
Reach-Phase (after r t) = Turn-Phase t (Reach-Phase r)

abbrev pub is_http_failure : {n : ℕ} {s t : Process} → Turn n s t → Bool
is_http_failure (http_fails _) = true
is_http_failure _ = false

-- A run in which ListenAndServe of the HTTP server has not failed.
abbrev pub ServerIsUp : {n : ℕ} {s : Process} → Reach n s → Type 0
ServerIsUp launch = Unit
ServerIsUp (after r t) = ServerIsUp r × (is_http_failure t ≡ false)

Turn-http :
    {n : ℕ} {s t : Process} (step : Turn n s t) → is_http_failure step ≡ false → t.http ≡ s.http
Turn-http (http_fails r) up = absurd (cc)
Turn-http step up = refl

Reach-http : {n : ℕ} {s : Process} (r : Reach n s) → ServerIsUp r → s.http ≡ true
Reach-http launch up = refl
Reach-http (after r t) (up, quiet) = Turn-http t quiet ∙ Reach-http r up

-- Unless ListenAndServe of the HTTP server fails, main never returns by the way of its wait group,
-- whatever else happens: every shutdown of a process whose HTTP server is up ends by the timeout.
pub exited-graceful :
    {n : ℕ} {s : Process} (r : Reach n s) → ServerIsUp r → s.main ≢ exited graceful
exited-graceful {n} {s} r up m =
    let done = (Phase-at n s m (Reach-Phase r)).1 in
    let running = Reach-http r up in let ended = done.http in absurd (cc)

exited-IsOver : {n : ℕ} {s : Process} (e : Ending) → Reach n s → s.main ≡ exited e → IsOver n s
exited-IsOver {n} {s} graceful r m = (Phase-at n s m (Reach-Phase r)).0.over
exited-IsOver {n} {s} forced r m = (Phase-at n s m (Reach-Phase r)).over

-- Unless dispatcher.Stop() overtook Dispatcher.Start, main does not return, not even by its timeout,
-- before dispatch and all workers have: no handler is cut short.
pub exited-IsAtRest :
    {n : ℕ} {s : Process} (e : Ending)
    → Reach n s
    → s.main ≡ exited e
    → s.overtaken ≡ false
    → IsAtRest n s.pool
exited-IsAtRest e r m o = elim (exited-IsOver e r m) [ inl late ↦ absurd (cc) | inr rest ↦ rest ]
