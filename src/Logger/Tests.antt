-- ===== src/Logger/Tests.antt =====
-- The levels of the logger, and the logger of a handler.
use reservation_worker.Base.{none, some, [], ◌∷◌, foreign, ok, err, ◌≡◌, refl, pos}
use reservation_worker.Logger.Defs.{
  debug_level, info_level, warn_level, error_level, level_of, other_encoder, ZapConfig, Logger,
  logger_config, new_logger, with_attempt, with_outcome, with_latency, string_field, int_field,
  dispatch_logger,
}

abbrev production : ZapConfig
production = record {
  level = info_level;
  encoding = "json";
  time_key = "ts";
  level_key = "level";
  message_key = "msg";
  encode_time = other_encoder "epoch";
}

levels :
    (level_of "debug" ≡ debug_level)
    × (level_of "warn" ≡ warn_level)
    × (level_of "error" ≡ error_level)
    × (level_of "verbose" ≡ info_level)
unfolding level_of
levels = (refl, refl, refl, refl)

new_logger_test :
    (new_logger production (λ c. none) "warn"
      ≡ ok (record { settings = logger_config production (λ c. none) "warn"; fields = [] }))
    × (new_logger production (λ c. some (foreign "no sink")) "warn" ≡ err (foreign "no sink"))
unfolding new_logger
new_logger_test = (refl, refl)

abbrev plain_logger : Logger
plain_logger = record { settings = production; fields = [] }

with_test :
    (with_latency (pos 5) (with_outcome "success" (with_attempt (pos 1) plain_logger))).fields
    ≡ int_field "attempt" (pos 1)
      ∷ string_field "outcome" "success"
      ∷ int_field "latency_ms" (pos 5)
      ∷ []
with_test = refl

dispatch_test :
    (dispatch_logger plain_logger "payment.failed" (pos 2)).fields
    ≡ string_field "event_type" "payment.failed"
      ∷ string_field "reservation_id" ""
      ∷ string_field "event_id" ""
      ∷ int_field "attempt" (pos 2)
      ∷ []
dispatch_test = refl
