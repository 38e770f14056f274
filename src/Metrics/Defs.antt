-- ===== src/Metrics/Defs.antt =====
-- internal/observability/metrics.go: the Prometheus metrics of the worker.
use reservation_worker.Base.{ℕ, suc, String, ◌==◌, ◌&&◌, List, [], ◌∷◌, if◌then◌else◌, ℤ}

-- A vector of counters is kept as its increments, newest first, each with the label values; a vector
-- of histograms as its observations. What a histogram observes is a wall-clock duration, left out.
abbrev pub CounterVec : Type 0
CounterVec = List (String × String)

-- `active_workers` is a gauge that is only ever set to a whole number.
pub record Metrics : Type 0 where
  pub events_total : CounterVec
  pub latency_histogram : List String
  pub sqs_poll_errors : ℕ
  pub active_workers : ℤ
  pub processing_duration : CounterVec

abbrev pub outcome_success : String
outcome_success = "success"

abbrev pub outcome_retried : String
outcome_retried = "retried"

abbrev pub outcome_failed : String
outcome_failed = "failed"

abbrev pub outcome_dropped : String
outcome_dropped = "dropped"

abbrev pub outcome_invalid_payload : String
outcome_invalid_payload = "invalid_payload"

abbrev pub outcome_downstream_error : String
outcome_downstream_error = "downstream_error"

abbrev pub record_event_processed : String → String → Metrics → Metrics
record_event_processed event_type outcome m = record m {
  events_total = (event_type, outcome) ∷ m.events_total;
}

abbrev pub record_event_latency : String → Metrics → Metrics
record_event_latency event_type m = record m {
  latency_histogram = event_type ∷ m.latency_histogram;
}

abbrev pub record_sqs_poll_error : Metrics → Metrics
record_sqs_poll_error m = record m { sqs_poll_errors = suc m.sqs_poll_errors }

abbrev pub set_active_workers : ℤ → Metrics → Metrics
set_active_workers count m = record m { active_workers = count }

abbrev pub record_processing_duration : String → String → Metrics → Metrics
record_processing_duration handler outcome m = record m {
  processing_duration = (handler, outcome) ∷ m.processing_duration;
}

-- The value of the counter with these label values.
unfoldable pub counter_value : String → String → CounterVec → ℕ
counter_value l₁ l₂ [] = 0
counter_value l₁ l₂ ((k₁, k₂) ∷ v) =
    let rest = counter_value l₁ l₂ v in if k₁ == l₁ && k₂ == l₂ then suc rest else rest
