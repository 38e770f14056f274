-- ===== src/System/Defs.antt =====
-- A run of the pool in which every worker calls HandleEvent with its event, and what these calls add to
-- the counter EventsTotal.
use reservation_worker.Base.{ℕ, ◌+◌, String, Bool, true, false, [], ◌∷◌, ◌++◌, ◌≡◌}
use reservation_worker.Metrics.{CounterVec, counter_value}
use reservation_worker.Config.{Config}
use reservation_worker.Runtime.{Env, State}
use reservation_worker.Dispatcher.{handle_event}
use reservation_worker.Dispatcher.Verdict.{enough_fuel}
use reservation_worker.Event.{Event}
use reservation_worker.Pool.Defs.{Pool, Step, handling, registering, finish, started, update}

-- The step from `v` to `w` adds what the one from `before` to `after` adds, at all label values.
-- Increments are atomic, so calls that overlap add up.
abbrev pub Adds : CounterVec → CounterVec → CounterVec → CounterVec → Type 0
Adds v w before after =
    (l o : String)
    → counter_value l o w + counter_value l o before ≡ counter_value l o v + counter_value l o after

abbrev pub is_finish : {n : ℕ} {s t : Pool} → Step n s t → Bool
is_finish (finish _ _ _) = true
is_finish _ = false

-- The states of the pool that can be reached, each with the counter. A call may start in any state and
-- meet any answers of the environment; what it adds is entered when it returns.
pub data Books (n : ℕ) (cfg : Config) : Pool → CounterVec → Type 0 where
  opened : Books n cfg (started n) []
  idle :
      {s t : Pool} {v : CounterVec}
      → Books n cfg s v
      → (st : Step n s t) → is_finish st ≡ false
      → Books n cfg t v
  call :
      {s : Pool} {v w : CounterVec} (e : Event) (i : ℕ)
      → Books n cfg s v
      → s.workers i ≡ handling e
      → (env : Env) (before : State)
      → (let (result, after) = handle_event env cfg (enough_fuel env cfg) e 1 before in
          Adds v w before.metrics.events_total after.metrics.events_total)
      → Books n cfg
          (record s { workers = update s.workers i registering; handled = s.handled ++ e ∷ [] })
          w
