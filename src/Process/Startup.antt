-- ===== src/Process/Startup.antt =====
-- cmd/reservation-worker/main.go up to the wait for a signal.
use reservation_worker.Base.{
  scale, to_int64, String, ◌==◌, ◌&&◌, not, Option, none, some, List, [], ◌∷◌, Error, Result, ℕ, ok,
  err, ℤ, pos, negsuc, if◌then◌else◌,
}
use reservation_worker.Config.{Config, load}
use reservation_worker.Config.Parse.{atoi}
use reservation_worker.Config.Secrets.{
  LoadOption, with_region, with_shared_config_profile, with_static_credentials, Aws,
  merge_with_secrets,
}
use reservation_worker.Logger.{ZapConfig, new_logger}
use reservation_worker.Client.{new_inventory_client}
use reservation_worker.Server.{http_addr}

-- What the process stands on: os.Getenv, zap, the AWS SDK and grpc.NewClient.
pub record Host : Type 0 where
  pub getenv : String → String
  pub production : ZapConfig
  pub build : ZapConfig → Option Error
  pub aws : Aws
  pub connect : String → Result ℕ

-- The goroutines that main starts.
pub data Begun : Type 0 where
  http_server : String → Begun
  grpc_server : ℤ → Begun
  dispatcher : Begun
  poller : Begun

-- Why main ends at once: os.Exit(1), or the panic of `make` for a channel of negative size.
pub data Failure : Type 0 where
  logger_failed : Error → Failure
  aws_failed : Error → Failure
  inventory_failed : Error → Failure
  negative_size : Failure
  invalid_port : Failure

-- How far main comes, with the goroutines that it has started.
pub data Started : Type 0 where
  exits : Failure → List Begun → Started
  runs : Config → List Begun → Started

-- The options for the client of SQS.
unfoldable pub sqs_options : (String → String) → Config → List LoadOption
sqs_options getenv cfg =
    let access_key = getenv "AWS_ACCESS_KEY_ID" in
    let secret_key = getenv "AWS_SECRET_ACCESS_KEY" in
    with_region cfg.sqs_region
    ∷ (if not (access_key == "") && not (secret_key == "")
        then with_static_credentials access_key secret_key ∷ []
        else if not (cfg.aws_profile == "")
        then with_shared_config_profile cfg.aws_profile ∷ []
        else [])

-- From the start of the HTTP server on.
unfoldable pub start_servers : Config → Started
start_servers cfg = elim (atoi cfg.grpc_debug_port) [
  | none ↦ exits invalid_port (http_server (http_addr cfg.server_port) ∷ [])
  | some port ↦
      runs cfg
        (http_server (http_addr cfg.server_port) ∷ grpc_server port ∷ dispatcher ∷ poller ∷ [])
]

-- `config.WorkerConcurrency*2`, an int, which wraps around.
abbrev pub doubled : ℤ → ℤ
doubled concurrency = to_int64 (scale concurrency 2)

-- NewDispatcher makes channels of the doubled concurrency and of the concurrency.
unfoldable pub make_dispatcher : Config → ℤ → ℤ → Started
unfolding start_servers
make_dispatcher cfg (pos room) (pos n) = start_servers cfg
make_dispatcher cfg (pos room) (negsuc n) = exits negative_size []
make_dispatcher cfg (negsuc room) concurrency = exits negative_size []

module _ (host : Host) where
  -- From the configuration of the AWS SDK on, with the secrets merged.
  unfoldable pub connect_services : Config → Started
  unfolding make_dispatcher
  connect_services cfg = elim (host.aws.load_default_config (sqs_options host.getenv cfg)) [
    | some e ↦ exits (aws_failed e) []
    | none ↦ elim (new_inventory_client host.connect cfg.inventory_grpc_addr) [
      | err e ↦ exits (inventory_failed e) []
      | ok client ↦ make_dispatcher cfg (doubled cfg.worker_concurrency) cfg.worker_concurrency
    ]
  ]

  -- main up to the wait for a signal. An error of MergeWithSecrets is only logged.
  unfoldable pub start_up : Started
  unfolding connect_services
  start_up =
      let cfg = load host.getenv in
      elim (new_logger host.production host.build cfg.log_level) [
        | err e ↦ exits (logger_failed e) []
        | ok logger ↦ connect_services (merge_with_secrets host.aws cfg).1
      ]
