-- ===== src/Metrics/Tests.antt =====
-- The registered names and buckets.
use reservation_worker.Base.{
  ℕ, String, Bool, true, false, ◌==◌, ◌||◌, ◌&&◌, not, List, [], ◌∷◌, ◌≡◌, refl, ltb,
}
use reservation_worker.Metrics.Registry.{histogram_vec, Registration, new_metrics}

abbrev names_of : Registration → List String
names_of r =
    r.events_total.name ∷ r.latency_histogram.name ∷ r.sqs_poll_errors.name ∷ r.active_workers.name
    ∷ r.processing_duration.name ∷ []

abbrev is_in : String → List String → Bool
is_in s [] = false
is_in s (t ∷ rest) = s == t || is_in s rest

abbrev is_nodup : List String → Bool
is_nodup [] = true
is_nodup (s ∷ rest) = not (is_in s rest) && is_nodup rest

-- Prometheus refuses a second collector of one name.
names_differ : is_nodup (names_of (new_metrics [])) ≡ true
unfolding new_metrics
names_differ = refl

abbrev is_increasing : List ℕ → Bool
is_increasing [] = true
is_increasing (a ∷ []) = true
is_increasing (a ∷ b ∷ rest) = ltb a b && is_increasing (b ∷ rest)

buckets_test :
    (new_metrics []).processing_duration.collector
    ≡ histogram_vec (1 ∷ 5 ∷ 10 ∷ 25 ∷ 50 ∷ 100 ∷ 250 ∷ 500 ∷ 1000 ∷ [])
unfolding new_metrics
buckets_test = refl

buckets_increase : is_increasing (1 ∷ 5 ∷ 10 ∷ 25 ∷ 50 ∷ 100 ∷ 250 ∷ 500 ∷ 1000 ∷ []) ≡ true
buckets_increase = refl
