-- ===== src/Config/Secrets.antt =====
-- internal/config/secrets.go.
use reservation_worker.Base.{
  String, ◌==◌, Option, none, some, List, [], ◌∷◌, Error, wrapped, Result, ok, err, not,
  if◌then◌else◌,
}
use reservation_worker.Base.ResultDo.{◌>>=◌}
use reservation_worker.Json.{Json, names, string_value, unmarshal}
use reservation_worker.Config.Defs.{Config}

pub record SecretConfig : Type 0 where
  pub sqs_queue_url : String
  pub inventory_grpc_addr : String
  pub reservation_api_base : String
  pub otel_endpoint : String

abbrev pub zero_secrets : SecretConfig
zero_secrets = record {
  sqs_queue_url = "";
  inventory_grpc_addr = "";
  reservation_api_base = "";
  otel_endpoint = "";
}

unfoldable pub set_secret : String → Json → SecretConfig → Result SecretConfig
set_secret key v d =
    if names key "sqs_queue_url"
    then (do s ← string_value d.sqs_queue_url v; ok (record d { sqs_queue_url = s }))
    else if names key "inventory_grpc_addr"
    then (do s ← string_value d.inventory_grpc_addr v; ok (record d { inventory_grpc_addr = s }))
    else if names key "reservation_api_base"
    then (do s ← string_value d.reservation_api_base v; ok (record d { reservation_api_base = s }))
    else if names key "otel_endpoint"
    then (do s ← string_value d.otel_endpoint v; ok (record d { otel_endpoint = s }))
    else ok d

-- The options of the AWS SDK that the program sets.
pub data LoadOption : Type 0 where
  with_region : String → LoadOption
  with_shared_config_profile : String → LoadOption
  with_static_credentials : String → String → LoadOption

-- The AWS SDK: loading its configuration, which may fail, and the value of a secret. The value is a
-- pointer to a text, of which the model has the JSON document.
pub record Aws : Type 0 where
  pub load_default_config : List LoadOption → Option Error
  pub get_secret_value : List LoadOption → String → Result (Option (Option Json))

-- `result.SecretString` into a new SecretConfig.
unfoldable pub parse_secret : Option (Option Json) → Result SecretConfig
unfolding unmarshal set_secret
parse_secret none = ok zero_secrets
parse_secret (some doc) = elim (unmarshal set_secret doc zero_secrets) [
  | err e ↦ err (wrapped "failed to parse secret value" e)
  | ok secrets ↦ ok secrets
]

-- `if secrets.F != "" { c.F = secrets.F }`
abbrev pub override : String → String → String
override secret old = if not (secret == "") then secret else old

abbrev pub override_config : SecretConfig → Config → Config
override_config secrets c = record c {
  sqs_queue_url = override secrets.sqs_queue_url c.sqs_queue_url;
  inventory_grpc_addr = override secrets.inventory_grpc_addr c.inventory_grpc_addr;
  reservation_api_base = override secrets.reservation_api_base c.reservation_api_base;
  otel_exporter_endpoint = override secrets.otel_endpoint c.otel_exporter_endpoint;
}

module _ (aws : Aws) where
  unfoldable pub load_secrets_from_aws : String → String → String → Result SecretConfig
  unfolding parse_secret
  load_secrets_from_aws region secret_name profile =
      let opts : List LoadOption =
        with_region region
        ∷ (if not (profile == "") then with_shared_config_profile profile ∷ [] else []) in
      elim (aws.load_default_config opts) [
        | some e ↦ err (wrapped "failed to load AWS config" e)
        | none ↦ elim (aws.get_secret_value opts secret_name) [
          | err e ↦ err (wrapped "failed to get secret value" e)
          | ok value ↦ parse_secret value
        ]
      ]

  -- The error, if there is one, and the configuration that is left.
  unfoldable pub merge_with_secrets : Config → Option Error × Config
  merge_with_secrets c =
      if not c.use_secret_manager
      then (none, c)
      else elim (load_secrets_from_aws c.aws_region c.secret_name c.aws_profile) [
        | err e ↦ (some (wrapped "failed to load secrets" e), c)
        | ok secrets ↦ (none, override_config secrets c)
      ]
