-- ===== src/Logger/Laws.antt =====
-- The fields on the lines of internal/handler, and the level of internal/observability/logger.go.
use reservation_worker.Base.{
  String, Bool, Bool-cases, ◌==◌, ◌||◌, true, false, List, [], ◌∷◌, ◌≡◌, ◌≢◌, ◌↔◌, inl, inr, refl,
  eq_iff,
}
use reservation_worker.Logger.Defs.{Field, string_field, int_field, Logger, handler_logger}

-- Whether a line carries a field of this name.
abbrev pub has_field : String → List Field → Bool
has_field name [] = false
has_field name (string_field k v ∷ rest) = k == name || has_field name rest
has_field name (int_field k v ∷ rest) = k == name || has_field name rest

-- The lines of a handler whose logger has no fields carry the type of the event exactly when the
-- event has no trace id, and the trace id exactly when it has one.
pub handler_logger_lem :
    (l : Logger) (event_type trace_id reservation_id event_id : String)
    → l.fields ≡ []
    → let fields = (handler_logger l event_type trace_id reservation_id event_id).fields in
      ((has_field "event_type" fields ≡ true) ↔ (trace_id ≡ ""))
      × ((has_field "trace_id" fields ≡ true) ↔ (trace_id ≢ ""))
unfolding handler_logger
handler_logger_lem l event_type trace_id reservation_id event_id h =
    elim (Bool-cases (trace_id == "")) [
      | inl empty ↦
          let no_trace : trace_id ≡ "" = (eq_iff trace_id "").0 empty in
          rw (empty, h) ((λ _. no_trace, λ _. refl), (λ p. absurd (cc), λ p. absurd (p no_trace)))
      | inr set ↦
          let traced : trace_id ≢ "" = λ e. cc ((eq_iff trace_id "").1 e, set) in
          rw (set, h) ((λ p. absurd (cc), λ p. absurd (traced p)), (λ _. traced, λ _. refl))
    ]
