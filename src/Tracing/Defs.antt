-- ===== src/Tracing/Defs.antt =====
-- internal/observability/tracing.go
use reservation_worker.Base.{String, Option, some, List, [], ◌∷◌, Error, wrapped, Result, ok, err}
use reservation_worker.Runtime.{record_error, set_status, error_status, ok_status, M, ◌>>◌, act}

-- SetSpanError
abbrev pub set_span_error : Error → M (Unit {0})
set_span_error e = do act (record_error e); act (set_status (error_status e))

-- SetSpanSuccess
abbrev pub set_span_success : M (Unit {0})
set_span_success = act (set_status ok_status)

pub record TracingConfig : Type 0 where
  pub service_name : String
  pub service_version : String
  pub environment : String
  pub exporter_endpoint : String

pub data ExporterOption : Type 0 where
  with_endpoint : String → ExporterOption
  with_insecure : ExporterOption

-- The attributes of the service that semconv names.
pub data ServiceAttribute : Type 0 where
  service_name : String → ServiceAttribute
  service_version : String → ServiceAttribute
  deployment_environment : String → ServiceAttribute

pub data Propagator : Type 0 where
  trace_context baggage : Propagator

-- The OpenTelemetry SDK: making an exporter, which may fail, and merging a resource with the default
-- one.
pub record Sdk (Exporter Resource : Type 0) : Type 0 where
  pub new_exporter : List ExporterOption → Result Exporter
  pub merge_default : List ServiceAttribute → Result Resource

-- A tracer provider as the program makes it, which samples always.
pub record TracerProvider (Exporter Resource : Type 0) : Type 0 where
  pub batcher : Exporter
  pub service : Resource

-- The global variables of the package otel.
pub record Globals (Exporter Resource : Type 0) : Type 0 where
  pub provider : Option (TracerProvider Exporter Resource)
  pub propagators : List Propagator

abbrev pub exporter_options : TracingConfig → List ExporterOption
exporter_options c = with_endpoint c.exporter_endpoint ∷ with_insecure ∷ []

abbrev pub service_attributes : TracingConfig → List ServiceAttribute
service_attributes c =
    service_name c.service_name
    ∷ service_version c.service_version
    ∷ deployment_environment c.environment
    ∷ []

module _ {Exporter Resource : Type 0} (sdk : Sdk Exporter Resource) where
  -- InitTracing
  unfoldable pub init_tracing :
      TracingConfig
      → Globals Exporter Resource
      → Result (TracerProvider Exporter Resource) × Globals Exporter Resource
  init_tracing c globals = elim (sdk.new_exporter (exporter_options c)) [
    | err e ↦ (err (wrapped "failed to create OTLP exporter" e), globals)
    | ok exporter ↦ elim (sdk.merge_default (service_attributes c)) [
      | err e ↦ (err (wrapped "failed to create resource" e), globals)
      | ok res ↦
          let tp : TracerProvider Exporter Resource = record {
            batcher = exporter;
            service = res;
          } in
          (ok tp, record { provider = some tp; propagators = trace_context ∷ baggage ∷ [] })
    ]
  ]
