-- ===== src/Config/Defs.antt =====
-- internal/config/config.go: the configuration and its backoff.
use reservation_worker.Base.{
  ℕ, zero, suc, ◌+◌, ◌*◌, String, Bool, false, ◌==◌, none, some, ℤ, pos, scale, to_int64, ltb,
  if◌then◌else◌,
}
use reservation_worker.Config.Parse.{atoi, parse_bool}

pub record Config : Type 0 where
  pub aws_profile : String
  pub aws_region : String
  pub use_secret_manager : Bool
  pub secret_name : String
  pub sqs_queue_url : String
  pub sqs_wait_time : ℤ
  pub sqs_region : String
  pub worker_concurrency : ℤ
  pub max_retries : ℤ
  pub backoff_base_ms : ℤ
  pub inventory_grpc_addr : String
  pub reservation_api_base : String
  pub otel_exporter_endpoint : String
  pub log_level : String
  pub server_port : String
  pub grpc_debug_port : String

-- The environment of the process: os.Getenv, which is empty for a variable that is not set.
module _ (getenv : String → String) where
  unfoldable pub get_env : String → String → String
  get_env key default_value = let value = getenv key in if value == "" then default_value else value

  unfoldable pub get_env_int : String → ℤ → ℤ
  get_env_int key default_value =
      let value = getenv key in
      if value == "" then default_value else elim (atoi value) [ none ↦ default_value | some n ↦ n ]

  unfoldable pub get_env_bool : String → Bool → Bool
  get_env_bool key default_value =
      let value = getenv key in
      if value == ""
      then default_value
      else elim (parse_bool value) [ none ↦ default_value | some b ↦ b ]

  unfoldable pub load : Config
  load = record {
    aws_profile = get_env "AWS_PROFILE" "";
    aws_region = get_env "AWS_REGION" "ap-northeast-2";
    use_secret_manager = get_env_bool "USE_SECRET_MANAGER" false;
    secret_name = get_env "SECRET_NAME" "traffictacos/reservation-worker";
    sqs_queue_url =
        get_env "SQS_QUEUE_URL" "https://sqs.ap-northeast-2.amazonaws.com/123/reservation-events";
    sqs_wait_time = get_env_int "SQS_WAIT_TIME" (pos 20);
    sqs_region = get_env "AWS_REGION" "ap-northeast-2";
    worker_concurrency = get_env_int "WORKER_CONCURRENCY" (pos 20);
    max_retries = get_env_int "MAX_RETRIES" (pos 5);
    backoff_base_ms = get_env_int "BACKOFF_BASE_MS" (pos 1000);
    inventory_grpc_addr = get_env "INVENTORY_GRPC_ADDR" "inventory-svc:8021";
    reservation_api_base = get_env "RESERVATION_API_BASE" "http://reservation-api:8010";
    otel_exporter_endpoint = get_env "OTEL_EXPORTER_OTLP_ENDPOINT" "http://otel-collector:4317";
    log_level = get_env "LOG_LEVEL" "info";
    server_port = get_env "SERVER_PORT" "8040";
    grpc_debug_port = get_env "GRPC_DEBUG_PORT" "8041";
  }

-- `for i := 0; i < attempt && i < 4; i++ { multiplier *= 2 }`, with the rounds that `i < 4` leaves.
unfoldable pub double_from : ℕ → ℕ → ℕ → ℕ → ℕ
double_from zero i attempt multiplier = multiplier
double_from (suc left) i attempt multiplier =
    let more = double_from left (i + 1) attempt (multiplier * 2) in
    if ltb i attempt then more else multiplier

-- time.Duration in nanoseconds; both products are int64 operations.
unfoldable pub get_backoff_duration : Config → ℕ → ℤ
unfolding double_from to_int64 scale
get_backoff_duration c attempt =
    to_int64 (scale (to_int64 (scale c.backoff_base_ms (double_from 4 0 attempt 1))) 1000000)
