-- ===== src/Tracing/Tests.antt =====
-- The set-up of tracing with an SDK whose resources are the attributes and whose exporters the options.
use reservation_worker.Base.{refl, foreign, wrapped, List, none, [], ◌∷◌, ok, err, some, ◌≡◌}
use reservation_worker.Tracing.Defs.{
  with_endpoint, with_insecure, service_name, service_version, deployment_environment,
  TracingConfig, ExporterOption, ServiceAttribute, trace_context, baggage, Sdk, TracerProvider,
  Globals, init_tracing,
}

abbrev sdk : Sdk (List ExporterOption) (List ServiceAttribute)
sdk = record { new_exporter = λ o. ok o; merge_default = λ a. ok a }

abbrev settings : TracingConfig
settings = record {
  service_name = "reservation-worker";
  service_version = "1.0.0";
  environment = "production";
  exporter_endpoint = "http://otel-collector:4317";
}

abbrev unset : Globals (List ExporterOption) (List ServiceAttribute)
unset = record { provider = none; propagators = [] }

abbrev made : TracerProvider (List ExporterOption) (List ServiceAttribute)
made = record {
  batcher = with_endpoint "http://otel-collector:4317" ∷ with_insecure ∷ [];
  service =
      service_name "reservation-worker"
      ∷ service_version "1.0.0"
      ∷ deployment_environment "production"
      ∷ [];
}

init_tracing_test :
    init_tracing sdk settings unset
    ≡ (ok made, record { provider = some made; propagators = trace_context ∷ baggage ∷ [] })
unfolding init_tracing
init_tracing_test = refl

-- An exporter that cannot be made leaves the global variables alone.
no_exporter_test :
    init_tracing (record sdk { new_exporter = λ o. err (foreign "no host") }) settings unset
    ≡ (err (wrapped "failed to create OTLP exporter" (foreign "no host")), unset)
unfolding init_tracing
no_exporter_test = refl
