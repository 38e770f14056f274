-- ===== src/Config/Laws.antt =====
-- getEnvInt of internal/config/config.go and MergeWithSecrets of internal/config/secrets.go.
use reservation_worker.Base.{
  String, ◌==◌, true, false, Option, none, some, Bool-cases, Error, Result, ok, err, ◌≡◌, ◌≢◌, ◌⊎◌,
  inl, inr, refl, arith, eq_iff, ℤ,
}
use reservation_worker.Config.Parse.{atoi}
use reservation_worker.Config.Defs.{Config, get_env_int}
use reservation_worker.Config.Secrets.{
  SecretConfig, Aws, override, override_config, load_secrets_from_aws, merge_with_secrets,
}

atoi-empty : atoi "" ≡ none
unfolding atoi
atoi-empty = refl

-- The value of an integer variable: what it spells, or the default where it spells none. An empty
-- text spells none.
pub get_env_int_lem :
    (getenv : String → String) (key : String) (default_value : ℤ)
    → get_env_int getenv key default_value
      ≡ elim (atoi (getenv key)) as (λ _. ℤ) [ none ↦ default_value | some n ↦ n ]
unfolding get_env_int
get_env_int_lem getenv key default_value = elim (Bool-cases (getenv key == "")) [
  | inl empty ↦
      let unset : getenv key ≡ "" = (eq_iff (getenv key) "").0 empty in rw (unset, atoi-empty)
  | inr set ↦ rw set
]

module _ (aws : Aws) where
  -- A setting after the merge: the one of the secret, or the old one where the secret's is empty.
  abbrev pub IsMergedSetting : String → String → String → Type 0
  IsMergedSetting secret old new = ((secret ≡ "") × (new ≡ old)) ⊎ ((secret ≢ "") × (new ≡ secret))

  abbrev pub Merged : Config → Option Error × Config → Type 0
  Merged c (failure, c') =
      ((failure ≡ none) × (c.use_secret_manager ≡ false) × (c' ≡ c))
      ⊎ ((e : Error) × (load_secrets_from_aws aws c.aws_region c.secret_name c.aws_profile ≡ err e)
          × (failure ≢ none)
          × (c.use_secret_manager ≡ true)
          × (c' ≡ c))
      ⊎ ((secrets : SecretConfig) × (load_secrets_from_aws aws c.aws_region c.secret_name
              c.aws_profile
            ≡ ok secrets)
          × (c.use_secret_manager ≡ true)
          × (failure ≡ none)
          × IsMergedSetting secrets.sqs_queue_url c.sqs_queue_url c'.sqs_queue_url
          × IsMergedSetting secrets.inventory_grpc_addr c.inventory_grpc_addr c'.inventory_grpc_addr
          × IsMergedSetting secrets.reservation_api_base c.reservation_api_base
              c'.reservation_api_base
          × IsMergedSetting secrets.otel_endpoint c.otel_exporter_endpoint c'.otel_exporter_endpoint
          × (c' ≡ record c {
            sqs_queue_url = c'.sqs_queue_url;
            inventory_grpc_addr = c'.inventory_grpc_addr;
            reservation_api_base = c'.reservation_api_base;
            otel_exporter_endpoint = c'.otel_exporter_endpoint;
          }))

  override-IsMergedSetting :
      (secret old : String) → IsMergedSetting secret old (override secret old)
  override-IsMergedSetting secret old = ground (arith, eq_iff secret "")

  override_config-Merged :
      (c : Config) (secrets : SecretConfig)
      → load_secrets_from_aws aws c.aws_region c.secret_name c.aws_profile ≡ ok secrets
      → c.use_secret_manager ≡ true
      → Merged c (none, override_config secrets c)
  override_config-Merged c secrets h on = inr (
      inr (
        secrets,
        h,
        on,
        refl,
        override-IsMergedSetting secrets.sqs_queue_url c.sqs_queue_url,
        override-IsMergedSetting secrets.inventory_grpc_addr c.inventory_grpc_addr,
        override-IsMergedSetting secrets.reservation_api_base c.reservation_api_base,
        override-IsMergedSetting secrets.otel_endpoint c.otel_exporter_endpoint,
        refl,
      ))

  -- Without the secret manager the configuration stays as it was, without an error; with it, an error of
  -- loading the secrets is reported and leaves the configuration as it was, and otherwise exactly the
  -- four settings of the secret change, and each takes the value of the secret unless that is empty.
  pub merge_with_secrets_lem :
      (c : Config) → let (failure, c') = merge_with_secrets aws c in Merged c (failure, c')
  unfolding merge_with_secrets
  merge_with_secrets_lem c = elim (Bool-cases c.use_secret_manager) [
    | inl on ↦ go on (load_secrets_from_aws aws c.aws_region c.secret_name c.aws_profile) refl
    | inr off ↦ inl (ground arith, off, ground arith)
  ]
    where
      go :
          c.use_secret_manager ≡ true
          → (r : Result SecretConfig)
          → load_secrets_from_aws aws c.aws_region c.secret_name c.aws_profile ≡ r
          → Merged c (merge_with_secrets aws c)
      go on (err e) h = inr (inl (e, h, ground arith, on, ground arith))
      go on (ok secrets) h =
          let merged : merge_with_secrets aws c ≡ (none, override_config secrets c) =
            ground arith in
          rw merged (override_config-Merged c secrets h on)
