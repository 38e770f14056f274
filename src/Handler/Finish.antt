-- ===== src/Handler/Finish.antt =====
-- The starts and the ends that the Handle methods of internal/handler/expired.go, approved.go and failed.go share.
use reservation_worker.Base.{
  String, Bool, ◌==◌, ◌&&◌, not, Option, none, some, List, Error, wrapped, length, ltb,
}
use reservation_worker.Metrics.{
  record_processing_duration, outcome_success, outcome_invalid_payload, outcome_downstream_error,
}
use reservation_worker.Tracing.{set_span_error, set_span_success}
use reservation_worker.Runtime.{
  start_span, set_attributes, Attribute, end_span, M, ◌>>◌, return, act, observe,
}

-- observability.StartSpan and span.SetAttributes.
abbrev pub open_span : String → List (String × Attribute) → M (Unit {0})
open_span span attributes = do act (start_span span); act (set_attributes attributes)

-- A payload that cannot be used; no span is started.
unfoldable pub reject_payload : String → Error → M (Option Error)
reject_payload handler e = do
  observe (record_processing_duration handler outcome_invalid_payload)
  return (some e)

-- A downstream call that failed with `e`; the deferred span.End comes last.
unfoldable pub fail_handler : String → String → Error → M (Option Error)
fail_handler handler context e = do
  set_span_error e
  observe (record_processing_duration handler outcome_downstream_error)
  act end_span
  return (some (wrapped context e))

unfoldable pub succeed_handler : String → M (Option Error)
succeed_handler handler = do
  set_span_success
  observe (record_processing_duration handler outcome_success)
  act end_span
  return none

-- EventID != "" && len(SeatIDs) > 0
unfoldable pub has_seats : String → List String → Bool
has_seats event_id seat_ids = not (event_id == "") && ltb 0 (length seat_ids)
