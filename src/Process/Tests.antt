-- ===== src/Process/Tests.antt =====
-- A process with one worker from its start to its end, and the theorems about it at its states.
use reservation_worker.Base.{
  to_int64, scale, ◌+◌, ℕ, String, ◌==◌, true, false, none, [], ◌∷◌, ◌≡◌, ◌≢◌, inl, refl, arith,
  foreign, ok, err, pos, if◌then◌else◌, ◌<◌,
}
use reservation_worker.Pool.Defs.{
  started, update, handling, selecting, gone, returned, register, stop_dispatch, stop_worker,
}
use reservation_worker.Pool.Gauge.{IsAtRest}
use reservation_worker.Client.{new_inventory_client}
use reservation_worker.Config.{load, get_env, get_env_int, get_env_bool}
use reservation_worker.Config.Parse.{atoi, parse_bool}
use reservation_worker.Config.Secrets.{merge_with_secrets}
use reservation_worker.Logger.{new_logger, other_encoder, info_level}
use reservation_worker.Process.Startup.{
  Host, runs, http_server, grpc_server, dispatcher, poller, start_up, connect_services,
}
use reservation_worker.Process.Checks.{StartResult, start_up_lem}
use reservation_worker.Process.Shutdown.{
  graceful, forced, pool_stopping, pool_stopped, exited, Process, launched, pool_turn, http_fails,
  grpc_ends, starter_ends, gauge_set, poller_ends, signal, stop_poller, stop_pool, pool_ends,
  stop_grpc, all_done, time_out, Reach, launch, after,
}
use reservation_worker.Process.Exit.{exited-graceful, exited-IsAtRest}
use reservation_worker.Pool.Accounting.{dropped, count}
use reservation_worker.Process.Losses.{exited-accounted}
use reservation_worker.Process.Race.{start_may_be_overtaken}
use reservation_worker.Samples.{expired_event}
use reservation_worker.Process.Ends.{CanReturn, Reach-CanReturn}

abbrev variables : String → String
variables key =
    if key == "GRPC_DEBUG_PORT"
    then "9000"
    else if key == "AWS_ACCESS_KEY_ID"
    then "AKIA"
    else if key == "AWS_PROFILE"
    then "tacos"
    else ""

abbrev host : Host
host = record {
  getenv = variables;
  production = record {
    level = info_level;
    encoding = "json";
    time_key = "ts";
    level_key = "level";
    message_key = "msg";
    encode_time = other_encoder "epoch";
  };
  build = λ c. none;
  aws = record {
    load_default_config = λ options. none;
    get_secret_value = λ options name. err (foreign "no such secret");
  };
  connect = λ addr. ok 0;
}

starts :
    start_up host
    ≡ runs
        (load variables)
        (http_server ":8040" ∷ grpc_server (pos 9000) ∷ dispatcher ∷ poller ∷ [])
unfolding start_up new_logger connect_services new_inventory_client merge_with_secrets load get_env
    get_env_bool get_env_int atoi parse_bool to_int64 scale
starts = refl

start_up_lem_example : StartResult host (start_up host)
start_up_lem_example = start_up_lem host

-- The worker has registered, and main is inside dispatcher.Stop().
abbrev stopping : Process
stopping = record (launched 1) {
  main = pool_stopping;
  poller_stop = true;
  starter = false;
  pool = record (started 1) {
    idle = 0 ∷ [];
    workers = update (started 1).workers 0 selecting;
    cancelled = true;
    stopping = true;
  };
}

abbrev stopping-Reach : Reach 1 stopping
stopping-Reach =
    after
      (after
        (after
          (after (after launch (starter_ends refl))
            (pool_turn (register 0 refl (omega arith)) refl refl))
          (signal refl))
        (stop_poller refl))
      (stop_pool refl)

-- Behind dispatcher.Stop().
abbrev stopped : Process
stopped = record stopping {
  main = pool_stopped;
  pool = record stopping.pool {
    workers = update stopping.pool.workers 0 gone;
    dispatcher = returned;
    active = 0;
    announced = true;
  };
}

all_gone : (i : ℕ) → i < 1 → stopped.pool.workers i ≡ gone
all_gone i l = ground arith

abbrev stopped-Reach : Reach 1 stopped
stopped-Reach =
    after
      (after
        (after (after stopping-Reach (gauge_set refl refl))
          (pool_turn (stop_dispatch refl (inl refl)) refl refl))
        (pool_turn (stop_worker 0 refl refl) refl refl))
      (pool_ends refl refl (record { dispatcher = refl; workers = all_gone }))

-- Every goroutine of the wait group has ended, the one of the HTTP server by a failure.
abbrev ended : Process
ended = record stopped {
  main = exited graceful;
  http = false;
  grpc = false;
  starter = false;
  poller = false;
}

ended-Reach : Reach 1 ended
ended-Reach =
    after
      (after
        (after (after (after stopped-Reach (http_fails refl)) (grpc_ends refl refl))
          (poller_ends refl (inl refl)))
        (stop_grpc refl))
      (all_done refl refl refl refl refl refl)

-- The HTTP server is still up, and main has returned by its timeout.
abbrev overdue : Process
overdue = record stopped { main = exited forced }

abbrev overdue-Reach : Reach 1 overdue
overdue-Reach = after (after stopped-Reach (stop_grpc refl)) (time_out refl)

exited-graceful_example : overdue.main ≢ exited graceful
exited-graceful_example =
    exited-graceful overdue-Reach
      (((((((((((tt, refl), refl), refl), refl), refl), refl), refl), refl), refl), refl), refl)

exited-IsAtRest_example : IsAtRest 1 stopped.pool
exited-IsAtRest_example = exited-IsAtRest forced overdue-Reach refl refl

Reach-CanReturn_example : CanReturn 1 stopping
Reach-CanReturn_example = Reach-CanReturn stopping-Reach (λ e. cc)

start_may_be_overtaken_example :
    (s : Process) × Reach 1 s
    × (s.main ≡ exited forced)
    × (s.pool.workers 0 ≡ handling expired_event)
start_may_be_overtaken_example = start_may_be_overtaken 1 expired_event (omega arith)

exited-accounted_example :
    let counted = count (λ e. e.event_type == "reservation.expired") in
    counted ended.pool.accepted
    ≡ counted ended.pool.queue + counted (dropped ended.pool.settled) + counted ended.pool.handled
exited-accounted_example =
    exited-accounted (λ e. e.event_type == "reservation.expired") graceful ended-Reach refl refl
