-- ===== src/Config/Tests.antt =====
-- The tests of internal/config/config_test.go, by evaluation.
use Prim.Native.Nat.{min}
use reservation_worker.Base.{
  ok, ◌^◌, arith, codes, ℕ, ◌*◌, ◌≡◌, refl, String, ◌==◌, true, false, none, some, [], ◌∷◌, map,
  pos, negsuc, if◌then◌else◌,
}
use reservation_worker.Config.Parse.{atoi, parse_bool, atoi_codes}
use reservation_worker.Config.Backoff.{get_backoff_duration-exact}
use reservation_worker.Config.Laws.{Merged, merge_with_secrets_lem}
use reservation_worker.Config.Secrets.{Aws, load_secrets_from_aws, merge_with_secrets}
use reservation_worker.Json.{names, string_value, obj, field, end, str}
use reservation_worker.Config.Defs.{
  Config, get_env, get_env_int, get_env_bool, load, get_backoff_duration,
}

abbrev set_variables : String → String
set_variables key =
    if key == "SQS_QUEUE_URL"
    then "https://sqs.test.amazonaws.com/test-queue"
    else if key == "WORKER_CONCURRENCY"
    then "10"
    else if key == "AWS_PROFILE"
    then "test-profile"
    else if key == "USE_SECRET_MANAGER"
    then "true"
    else ""

load_test :
    let cfg = load set_variables in
    (cfg.sqs_queue_url ≡ "https://sqs.test.amazonaws.com/test-queue")
    × (cfg.worker_concurrency ≡ pos 10)
    × (cfg.aws_profile ≡ "test-profile")
    × (cfg.use_secret_manager ≡ true)
    × (cfg.max_retries ≡ pos 5)
    × (cfg.backoff_base_ms ≡ pos 1000)
unfolding load get_env get_env_int get_env_bool atoi parse_bool
load_test = (refl, refl, refl, refl, refl, refl)

backoff_test :
    map (get_backoff_duration (load (λ key. ""))) (0 ∷ 1 ∷ 2 ∷ 3 ∷ 4 ∷ 5 ∷ 10 ∷ [])
    ≡ map (λ (n : ℕ). pos (n * 1000000000)) (1 ∷ 2 ∷ 4 ∷ 8 ∷ 16 ∷ 16 ∷ 16 ∷ [])
unfolding load get_env get_env_int get_env_bool get_backoff_duration
backoff_test = refl

atoi_test :
    (atoi "-42" ≡ some (negsuc 41))
    × (atoi "+7" ≡ some (pos 7))
    × (atoi "" ≡ none)
    × (atoi "12a" ≡ none)
    × (atoi "9223372036854775808" ≡ none)
    × (atoi "-9223372036854775808" ≡ some (negsuc 9223372036854775807))
unfolding atoi
atoi_test = (refl, refl, refl, refl, refl, refl)

abbrev config : Config
config = record {
  aws_profile = "";
  aws_region = "ap-northeast-2";
  use_secret_manager = false;
  secret_name = "s";
  sqs_queue_url = "https://sqs/events";
  sqs_wait_time = pos 20;
  sqs_region = "ap-northeast-2";
  worker_concurrency = pos 2;
  max_retries = pos 3;
  backoff_base_ms = pos 1000;
  inventory_grpc_addr = "inventory-svc:8021";
  reservation_api_base = "http://reservation-api:8010";
  otel_exporter_endpoint = "";
  log_level = "info";
  server_port = "8040";
  grpc_debug_port = "8041";
}

get_backoff_duration-exact_example :
    get_backoff_duration config 2 ≡ pos (1000 * 2 ^ min 2 4 * 1000000)
get_backoff_duration-exact_example = get_backoff_duration-exact config 1000 2 refl (omega arith)

abbrev aws : Aws
aws = record {
  load_default_config = λ opts. none;
  get_secret_value =
      λ opts name. ok (some (some (obj (field "sqs_queue_url" (str "https://q") end))));
}

abbrev with_secrets : Config
with_secrets = record config { use_secret_manager = true }

merge_with_secrets_lem_example : Merged aws with_secrets (merge_with_secrets aws with_secrets)
merge_with_secrets_lem_example = merge_with_secrets_lem aws with_secrets

merge_test :
    merge_with_secrets aws with_secrets
    ≡ (none, record with_secrets { sqs_queue_url = "https://q" })
unfolding merge_with_secrets load_secrets_from_aws names string_value
merge_test = refl

minus_five : atoi_codes (codes "-5") ≡ some (negsuc 4)
unfolding atoi_codes
minus_five = refl
