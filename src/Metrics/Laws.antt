-- ===== src/Metrics/Laws.antt =====
-- A counter of internal/observability/metrics.go after an increment.
use reservation_worker.Base.{suc, String, ◌==◌, false, ◌≡◌, ◌∷◌, eq_refl}
use reservation_worker.Metrics.Defs.{CounterVec, counter_value}

pub counter_value-same :
    (l₁ l₂ : String) (v : CounterVec)
    → counter_value l₁ l₂ ((l₁, l₂) ∷ v) ≡ suc (counter_value l₁ l₂ v)
unfolding counter_value
counter_value-same l₁ l₂ v = rw (eq_refl l₁, eq_refl l₂)

pub counter_value-other :
    (l₁ l₂ k₂ : String) (v : CounterVec)
    → (k₂ == l₂) ≡ false
    → counter_value l₁ l₂ ((l₁, k₂) ∷ v) ≡ counter_value l₁ l₂ v
unfolding counter_value
counter_value-other l₁ l₂ k₂ v h = rw (eq_refl l₁, h)

pub counter_value-foreign :
    (l₁ l₂ k₁ k₂ : String) (v : CounterVec)
    → (k₁ == l₁) ≡ false
    → counter_value l₁ l₂ ((k₁, k₂) ∷ v) ≡ counter_value l₁ l₂ v
unfolding counter_value
counter_value-foreign l₁ l₂ k₁ k₂ v h = rw h
