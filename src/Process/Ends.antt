-- ===== src/Process/Ends.antt =====
-- How main of cmd/reservation-worker/main.go can always come to its end after a signal.
use reservation_worker.Base.{Bool-cases, inl, inr, false, ℕ, ◌≡◌, ◌≢◌, refl}
use reservation_worker.Pool.{Pool}
use reservation_worker.Pool.Progress.{Internal, Run, halt, go_on}
use reservation_worker.Pool.Rest.{comes_to_rest}
use reservation_worker.Process.Exit.{Reach-Phase, Phase-at}
use reservation_worker.Process.Refine.{Reach-pool}
use reservation_worker.Process.Shutdown.{
  Ending, forced, MainAt, waiting, signalled, poller_stopped, pool_stopping, pool_stopped,
  waiting_all, exited, Process, Turn, pool_turn, stop_poller, stop_pool, pool_ends, overtakes,
  stop_grpc, time_out, Reach, after,
}

-- One turn after the other.
pub data Turns (n : ℕ) (s : Process) : Process → Type 0 where
  here : Turns n s s
  then : {t u : Process} → Turns n s t → Turn n t u → Turns n s u

-- main can go on until it has returned.
abbrev pub CanReturn : ℕ → Process → Type 0
CanReturn n s = (t : Process) × (e : Ending) × Turns n s t × (t.main ≡ exited e)

Turns-Reach : {n : ℕ} {s t : Process} → Reach n s → Turns n s t → Reach n t
Turns-Reach r here = r
Turns-Reach r (then ts turn) = after (Turns-Reach r ts) turn

-- A run of the pool is one of the process.
Run-Turns :
    {n : ℕ} {s : Process} (t : Process) {k : ℕ} {p : Pool}
    → t.starter ≡ false
    → Turns n s t
    → Run (Internal n) t.pool k p
    → Turns n s (record t { pool = p })
Run-Turns t b ts halt = ts
Run-Turns t b ts (go_on run st) = then (Run-Turns t b ts run) (pool_turn st.step st.internal b)

waiting_all-CanReturn : {n : ℕ} {s t : Process} → Turns n s t → t.main ≡ waiting_all → CanReturn n s
waiting_all-CanReturn ts m = (_, forced, then ts (time_out m), refl)

pool_stopped-CanReturn :
    {n : ℕ} {s t : Process} → Turns n s t → t.main ≡ pool_stopped → CanReturn n s
pool_stopped-CanReturn ts m = waiting_all-CanReturn (then ts (stop_grpc m)) refl

pool_stopping-CanReturn :
    {n : ℕ} {s t : Process} → Reach n s → Turns n s t → t.main ≡ pool_stopping → CanReturn n s
pool_stopping-CanReturn {n} {s} {t} r ts m = elim (Bool-cases t.starter) [
  | inl early ↦ pool_stopped-CanReturn (then ts (overtakes m early)) refl
  | inr begun ↦
      let reached = Turns-Reach r ts in
      let told = Phase-at n t m (Reach-Phase reached) in
      let (p, k, run, rest) = comes_to_rest (Reach-pool reached) told.0 in
      pool_stopped-CanReturn (then (Run-Turns t begun ts run) (pool_ends m begun rest)) refl
]

poller_stopped-CanReturn :
    {n : ℕ} {s t : Process} → Reach n s → Turns n s t → t.main ≡ poller_stopped → CanReturn n s
poller_stopped-CanReturn r ts m = pool_stopping-CanReturn r (then ts (stop_pool m)) refl

main-CanReturn :
    {n : ℕ} {s : Process} → Reach n s → (m : MainAt) → s.main ≡ m → m ≢ waiting → CanReturn n s
main-CanReturn r waiting e d = absurd (d refl)
main-CanReturn r signalled e d = poller_stopped-CanReturn r (then here (stop_poller e)) refl
main-CanReturn r poller_stopped e d = poller_stopped-CanReturn r here e
main-CanReturn r pool_stopping e d = pool_stopping-CanReturn r here e
main-CanReturn r pool_stopped e d = pool_stopped-CanReturn here e
main-CanReturn r waiting_all e d = waiting_all-CanReturn here e
main-CanReturn {s} r (exited x) e d = (s, x, here, e)

-- From every reachable state behind the signal, whatever the goroutines were doing, there are turns
-- after which main has returned: no wait of the shutdown is a deadlock.
pub Reach-CanReturn : {n : ℕ} {s : Process} → Reach n s → s.main ≢ waiting → CanReturn n s
Reach-CanReturn {s} r w = main-CanReturn r s.main refl w
