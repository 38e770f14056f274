-- ===== src/Process/Checks.antt =====
-- What main of cmd/reservation-worker/main.go needs in order to run, and what it signs in to AWS with.
use reservation_worker.Base.{
  scale, to_int64, wrapped, ℕ, String, Bool, true, false, none, some, List, [], ◌∷◌, ◌≡◌, ◌≢◌, ◌⊎◌,
  ◌↔◌, inl, inr, refl, arith, eq_iff, All, Option-cases, Result-cases, ok, ℤ, pos, negsuc,
}
use reservation_worker.Config.{Config, load}
use reservation_worker.Config.Parse.{atoi}
use reservation_worker.Config.Secrets.{
  LoadOption, with_region, with_shared_config_profile, with_static_credentials, merge_with_secrets,
}
use reservation_worker.Logger.{logger_config, new_logger}
use reservation_worker.Client.{new_inventory_client}
use reservation_worker.Server.{http_addr}
use reservation_worker.Process.Startup.{
  Host, Begun, http_server, grpc_server, dispatcher, poller, Failure, Started, exits, runs,
  sqs_options, start_servers, doubled, make_dispatcher, connect_services, start_up, logger_failed,
  aws_failed, inventory_failed, negative_size, invalid_port,
}

abbrev pub all_begun : Config → ℤ → List Begun
all_begun cfg port =
    http_server (http_addr cfg.server_port) ∷ grpc_server port ∷ dispatcher ∷ poller ∷ []

-- No goroutine that takes or handles messages.
abbrev pub IsServer : Begun → Type 0
IsServer dispatcher = ⊥
IsServer poller = ⊥
IsServer _ = Unit

module _ (host : Host) where
  -- The configuration with the secrets, or without them where they cannot be had.
  abbrev pub settings : Config
  settings = (merge_with_secrets host.aws (load host.getenv)).1

  pub record Ready : Type 0 where
    pub logger :
        host.build (logger_config host.production host.build (load host.getenv).log_level) ≡ none
    pub aws : host.aws.load_default_config (sqs_options host.getenv settings) ≡ none
    pub conn : ℕ
    pub inventory : host.connect settings.inventory_grpc_addr ≡ ok conn
    pub concurrency : ℕ
    pub size : settings.worker_concurrency ≡ pos concurrency
    pub room : ℕ
    pub doubled_size : to_int64 (scale settings.worker_concurrency 2) ≡ pos room
    pub port : ℤ
    pub parsed : atoi settings.grpc_debug_port ≡ some port

  -- What main has come to.
  abbrev pub StartResult : Started → Type 0
  StartResult s =
      ((r : Ready) × (s ≡ runs settings (all_begun settings r.port)))
      ⊎ ((x : Failure) × (begun : List Begun) × (s ≡ exits x begun)
          × (¬ Ready)
          × All IsServer begun)

  servers_lem :
      host.build (logger_config host.production host.build (load host.getenv).log_level) ≡ none
      → host.aws.load_default_config (sqs_options host.getenv settings) ≡ none
      → (conn : ℕ) → host.connect settings.inventory_grpc_addr ≡ ok conn
      → (room n : ℕ) → to_int64 (scale settings.worker_concurrency 2) ≡ pos room
      → settings.worker_concurrency ≡ pos n
      → StartResult (start_servers settings)
  unfolding start_servers
  servers_lem l a conn i room n d c = elim (Option-cases (atoi settings.grpc_debug_port)) [
    | inl bad ↦ inr (
      invalid_port,
      http_server (http_addr settings.server_port) ∷ [],
      rw (bad, start_servers) refl,
      λ r. cc (r.parsed, bad),
      (tt, tt),
    )
    | inr (p, good) ↦ inl (
      record {
        logger = l;
        aws = a;
        conn = conn;
        inventory = i;
        concurrency = n;
        size = c;
        room = room;
        doubled_size = d;
        port = p;
        parsed = good;
      },
      rw (good, start_servers) refl,
    )
  ]

  dispatcher_lem :
      host.build (logger_config host.production host.build (load host.getenv).log_level) ≡ none
      → host.aws.load_default_config (sqs_options host.getenv settings) ≡ none
      → (conn : ℕ) → host.connect settings.inventory_grpc_addr ≡ ok conn
      → (room c : ℤ) → to_int64 (scale settings.worker_concurrency 2) ≡ room
      → settings.worker_concurrency ≡ c
      → StartResult (make_dispatcher settings room c)
  unfolding make_dispatcher
  dispatcher_lem l a conn i (pos room) (pos n) d c = servers_lem l a conn i room n d c
  dispatcher_lem l a conn i (pos room) (negsuc n) d c =
      inr (negative_size, [], refl, λ r. cc (r.size, c), tt)
  dispatcher_lem l a conn i (negsuc room) n d c =
      inr (negative_size, [], refl, λ r. cc (r.doubled_size, d), tt)

  connect_lem :
      host.build (logger_config host.production host.build (load host.getenv).log_level) ≡ none
      → StartResult (connect_services host settings)
  unfolding connect_services new_inventory_client
  connect_lem l =
      elim (Option-cases (host.aws.load_default_config (sqs_options host.getenv settings))) [
        | inr (e, bad) ↦
            inr (aws_failed e, [], rw (bad, connect_services) refl, λ r. cc (r.aws, bad), tt)
        | inl a ↦ elim (Result-cases (host.connect settings.inventory_grpc_addr)) [
          | inr (e, bad) ↦ inr (
            inventory_failed (wrapped "failed to connect to inventory service" e),
            [],
            rw (a, bad, connect_services) refl,
            λ r. cc (r.inventory, bad),
            tt,
          )
          | inl (conn, i) ↦
              rw (a, i, connect_services)
                (dispatcher_lem l a conn i (doubled settings.worker_concurrency)
                  settings.worker_concurrency refl refl)
        ]
      ]

  -- main runs, with its four goroutines and the merged settings, exactly when the logger, the AWS
  -- configuration and the inventory client can be made, neither the concurrency nor its double, as an
  -- int of 64 bits, is negative, and the port of the debug server is a number; failing to load the secrets is no reason to end. When it ends
  -- instead, neither the dispatcher nor the poller has been started.
  pub start_up_lem : StartResult (start_up host)
  unfolding start_up new_logger
  start_up_lem =
      let built =
        host.build (logger_config host.production host.build (load host.getenv).log_level) in
      elim (Option-cases built) [
        | inr (e, bad) ↦
            inr (logger_failed e, [], rw (bad, start_up) refl, λ r. cc (r.logger, bad), tt)
        | inl good ↦ rw (good, start_up) (connect_lem good)
      ]

abbrev pub uses_credentials : List LoadOption → Bool
uses_credentials [] = false
uses_credentials (with_static_credentials _ _ ∷ rest) = true
uses_credentials (with_region _ ∷ rest) = uses_credentials rest
uses_credentials (with_shared_config_profile _ ∷ rest) = uses_credentials rest

abbrev pub uses_profile : List LoadOption → Bool
uses_profile [] = false
uses_profile (with_shared_config_profile _ ∷ rest) = true
uses_profile (with_region _ ∷ rest) = uses_profile rest
uses_profile (with_static_credentials _ _ ∷ rest) = uses_profile rest

-- The SQS client signs in with the access keys of the environment exactly when both are set, and with
-- the profile exactly when it is set and a key is missing; so never with both.
pub sqs_options_lem :
    (getenv : String → String) (cfg : Config)
    → let access_key = getenv "AWS_ACCESS_KEY_ID" in
      let secret_key = getenv "AWS_SECRET_ACCESS_KEY" in
      let options = sqs_options getenv cfg in
      ((uses_credentials options ≡ true) ↔ ((access_key ≢ "") × (secret_key ≢ "")))
      × ((uses_profile options ≡ true)
          ↔ ((cfg.aws_profile ≢ "") × ((access_key ≡ "") ⊎ (secret_key ≡ ""))))
unfolding sqs_options
sqs_options_lem getenv cfg =
    let access_key = getenv "AWS_ACCESS_KEY_ID" in
    let secret_key = getenv "AWS_SECRET_ACCESS_KEY" in
    ground (arith, eq_iff access_key "", eq_iff secret_key "", eq_iff cfg.aws_profile "")
