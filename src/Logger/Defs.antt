-- ===== src/Logger/Defs.antt =====
-- internal/observability/logger.go, and the choice of a logger in internal/handler.
use reservation_worker.Base.{
  String, ◌==◌, not, Option, none, some, List, [], ◌∷◌, ◌++◌, Error, Result, ok, err, ℤ,
  if◌then◌else◌,
}

-- The levels of zapcore that the program names, from the lowest on.
pub data Level : Type 0 where
  debug_level : Level
  info_level : Level
  warn_level : Level
  error_level : Level

-- `switch level` of NewLogger
unfoldable pub level_of : String → Level
level_of level =
    if level == "debug"
    then debug_level
    else if level == "info"
    then info_level
    else if level == "warn"
    then warn_level
    else if level == "error"
    then error_level
    else info_level

-- The encoders of time: the one that the program sets, and any other by its name.
pub data TimeEncoder : Type 0 where
  iso8601 : TimeEncoder
  other_encoder : String → TimeEncoder

-- The settings of zap.Config that the program changes.
pub record ZapConfig : Type 0 where
  pub level : Level
  pub encoding : String
  pub time_key : String
  pub level_key : String
  pub message_key : String
  pub encode_time : TimeEncoder

pub data Field : Type 0 where
  string_field : String → String → Field
  int_field : String → ℤ → Field

-- A logger of zap: its settings, and the fields that every line carries, in their order.
pub record Logger : Type 0 where
  pub settings : ZapConfig
  pub fields : List Field

-- `production` is zap.NewProductionConfig(), and `build` is Build, which may fail.
module _ (production : ZapConfig) (build : ZapConfig → Option Error) where
  abbrev pub logger_config : String → ZapConfig
  logger_config level = record production {
    level = level_of level;
    encoding = "json";
    time_key = "ts";
    level_key = "level";
    message_key = "msg";
    encode_time = iso8601;
  }

  -- NewLogger
  unfoldable pub new_logger : String → Result Logger
  new_logger level = elim (build (logger_config level)) [
    | some e ↦ err e
    | none ↦ ok (record { settings = logger_config level; fields = [] })
  ]

abbrev pub with_fields : List Field → Logger → Logger
with_fields fields l = record l { fields = l.fields ++ fields }

-- WithEvent
abbrev pub with_event : String → String → String → Logger → Logger
with_event event_type reservation_id event_id = with_fields (
    string_field "event_type" event_type
    ∷ string_field "reservation_id" reservation_id
    ∷ string_field "event_id" event_id
    ∷ [])

-- WithTrace
abbrev pub with_trace : String → Logger → Logger
with_trace trace_id = with_fields (string_field "trace_id" trace_id ∷ [])

-- WithAttempt
abbrev pub with_attempt : ℤ → Logger → Logger
with_attempt attempt = with_fields (int_field "attempt" attempt ∷ [])

-- WithOutcome
abbrev pub with_outcome : String → Logger → Logger
with_outcome outcome = with_fields (string_field "outcome" outcome ∷ [])

-- WithLatency
abbrev pub with_latency : ℤ → Logger → Logger
with_latency latency_ms = with_fields (int_field "latency_ms" latency_ms ∷ [])

-- The logger that Handle of each handler uses for an event, its detail being for this reservation and
-- this event.
unfoldable pub handler_logger : Logger → String → String → String → String → Logger
handler_logger l event_type trace_id reservation_id event_id =
    let logger = with_event event_type reservation_id event_id l in
    if not (trace_id == "") then with_trace trace_id l else logger

-- The logger of HandleEvent.
abbrev pub dispatch_logger : Logger → String → ℤ → Logger
dispatch_logger l event_type attempt =
    with_fields (int_field "attempt" attempt ∷ []) (with_event event_type "" "" l)
