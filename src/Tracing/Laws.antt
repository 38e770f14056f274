-- ===== src/Tracing/Laws.antt =====
-- InitTracing of internal/observability/tracing.go.
use reservation_worker.Base.{
  some, [], ◌∷◌, Error, wrapped, ok, err, Result-cases, ◌≡◌, ◌⊎◌, inl, inr, refl,
}
use reservation_worker.Tracing.Defs.{
  TracingConfig, exporter_options, service_attributes, trace_context, baggage, Sdk, TracerProvider,
  Globals, init_tracing,
}

module _ {Exporter Resource : Type 0} (sdk : Sdk Exporter Resource) where
  -- InitTracing that fails leaves the global variables alone; one that succeeds returns the provider
  -- that it made global, with an exporter to the configured endpoint, a resource of the
  -- configured service and both propagators.
  pub init_tracing_lem :
      (c : TracingConfig) (globals : Globals Exporter Resource)
      → let (result, after) = init_tracing sdk c globals in
        ((e : Error) × (result ≡ err e) × (after ≡ globals))
        ⊎ ((tp : TracerProvider Exporter Resource) × (result ≡ ok tp)
            × (sdk.new_exporter (exporter_options c) ≡ ok tp.batcher)
            × (sdk.merge_default (service_attributes c) ≡ ok tp.service)
            × (after ≡ record { provider = some tp; propagators = trace_context ∷ baggage ∷ [] }))
  unfolding init_tracing
  init_tracing_lem c globals = elim (Result-cases (sdk.new_exporter (exporter_options c))) [
    | inr (e, failed) ↦ inl (
      wrapped "failed to create OTLP exporter" e,
      rw (failed, init_tracing) refl,
      rw (failed, init_tracing) refl,
    )
    | inl (x, made) ↦ elim (Result-cases (sdk.merge_default (service_attributes c))) [
      | inr (e, failed) ↦ inl (
        wrapped "failed to create resource" e,
        rw (made, failed, init_tracing) refl,
        rw (made, failed, init_tracing) refl,
      )
      | inl (res, merged) ↦ inr (
        record { batcher = x; service = res },
        rw (made, merged, init_tracing) refl,
        made,
        merged,
        rw (made, merged, init_tracing) refl,
      )
    ]
  ]
