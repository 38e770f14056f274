-- ===== src/Metrics/Registry.antt =====
-- NewMetrics of internal/observability/metrics.go: what is registered with Prometheus.
use reservation_worker.Base.{ℕ, String, List, [], ◌∷◌}

-- A collector with its options. A bucket's bound is given in thousandths of a second.
pub data Collector : Type 0 where
  counter_vec : Collector
  counter : Collector
  gauge : Collector
  histogram_vec : List ℕ → Collector

pub record Registered : Type 0 where
  pub collector : Collector
  pub name : String
  pub help : String
  pub labels : List String

pub record Registration : Type 0 where
  pub events_total : Registered
  pub latency_histogram : Registered
  pub sqs_poll_errors : Registered
  pub active_workers : Registered
  pub processing_duration : Registered

-- `default_buckets` is prometheus.DefBuckets.
unfoldable pub new_metrics : List ℕ → Registration
new_metrics default_buckets = record {
  events_total = record {
    collector = counter_vec;
    name = "worker_events_total";
    help = "Total number of events processed by type and outcome";
    labels = "type" ∷ "outcome" ∷ [];
  };
  latency_histogram = record {
    collector = histogram_vec default_buckets;
    name = "worker_latency_seconds";
    help = "Event processing latency in seconds";
    labels = "type" ∷ [];
  };
  sqs_poll_errors = record {
    collector = counter;
    name = "sqs_poll_errors_total";
    help = "Total number of SQS polling errors";
    labels = [];
  };
  active_workers = record {
    collector = gauge;
    name = "worker_active_goroutines";
    help = "Current number of active worker goroutines";
    labels = [];
  };
  processing_duration = record {
    collector = histogram_vec (1 ∷ 5 ∷ 10 ∷ 25 ∷ 50 ∷ 100 ∷ 250 ∷ 500 ∷ 1000 ∷ []);
    name = "worker_processing_duration_seconds";
    help = "Time spent processing events by handler type";
    labels = "handler" ∷ "outcome" ∷ [];
  };
}
