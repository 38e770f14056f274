-- ===== src/Samples.antt =====
-- Concrete events, configurations and environments for the examples of the other modules.
use reservation_worker.Base.{ℕ, true, false, none, some, [], ◌∷◌, foreign, ok, err, pos}
use reservation_worker.Json.{str, obj, field, end}
use reservation_worker.Event.{
  Event, ReservationExpiredDetail, PaymentApprovedDetail, PaymentFailedDetail,
}
use reservation_worker.Event.Decode.{zero_event}
use reservation_worker.Event.RoundTrip.{encode_expired, encode_approved, encode_failed}
use reservation_worker.Metrics.{Metrics}
use reservation_worker.Config.{Config}
use reservation_worker.Runtime.{HttpResponse, Message, sent, proceed, Env, State}

abbrev pub expired_detail : ReservationExpiredDetail
expired_detail = record {
  reservation_id = "rsv_456";
  event_id = "evt_123";
  quantity = pos 2;
  seat_ids = "A1" ∷ "A2" ∷ [];
  user_id = "";
  expires_at = "";
}

abbrev pub approved_detail : PaymentApprovedDetail
approved_detail = record {
  reservation_id = "rsv_101";
  payment_intent_id = "pay_abc";
  amount = pos 120000;
  currency = "KRW";
  event_id = "evt_123";
  user_id = "";
  seat_ids = "A1" ∷ [];
  quantity = pos 1;
}

abbrev pub failed_detail : PaymentFailedDetail
failed_detail = record {
  reservation_id = "rsv_222";
  payment_intent_id = "pay_def";
  amount = pos 120000;
  currency = "KRW";
  error_code = "insufficient_funds";
  error_message = "";
  event_id = "evt_123";
  user_id = "";
  seat_ids = "B7" ∷ [];
  quantity = pos 1;
}

abbrev pub expired_event : Event
expired_event = record zero_event {
  id = "e1";
  event_type = "reservation.expired";
  detail = some (encode_expired expired_detail);
}

abbrev pub approved_event : Event
approved_event = record zero_event {
  id = "e2";
  event_type = "payment.approved";
  detail = some (encode_approved approved_detail);
}

abbrev pub failed_event : Event
failed_event = record zero_event {
  id = "e3";
  event_type = "payment.failed";
  detail = some (encode_failed failed_detail);
}

-- An event without a detail, and one of a type that the worker does not handle.
abbrev pub empty_event : Event
empty_event = record zero_event { id = "e4"; event_type = "payment.approved" }

abbrev pub config : Config
config = record {
  aws_profile = "";
  aws_region = "ap-northeast-2";
  use_secret_manager = false;
  secret_name = "";
  sqs_queue_url = "https://sqs/events";
  sqs_wait_time = pos 20;
  sqs_region = "ap-northeast-2";
  worker_concurrency = pos 2;
  max_retries = pos 3;
  backoff_base_ms = pos 1000;
  inventory_grpc_addr = "inventory-svc:8021";
  reservation_api_base = "http://reservation-api:8010";
  otel_exporter_endpoint = "";
  log_level = "info";
  server_port = "8040";
  grpc_debug_port = "8041";
}

abbrev pub status : ℕ → HttpResponse
status code = record { status_code = code; body = ""; document = none }

-- A message with an event, and one with a body that is no JSON document.
abbrev pub good_message : Message
good_message = record {
  message_id = some "m1";
  receipt_handle = some "r1";
  body = some (some (obj (field "type" (str "payment.approved") end)));
  message_attributes = ("TraceId", some "t1") ∷ [];
  attributes = ("ApproximateReceiveCount", "3") ∷ [];
}

abbrev pub bad_message : Message
bad_message = record {
  message_id = some "m2";
  receipt_handle = some "r2";
  body = some none;
  message_attributes = [];
  attributes = [];
}

-- Everything succeeds.
abbrev pub calm : Env
calm = record {
  on_release_hold = λ past r. none;
  on_commit_reservation = λ past r. none;
  on_new_request = λ url. none;
  on_http_do = λ past r. ok (status 200);
  on_receive_message = λ past r. ok (good_message ∷ bad_message ∷ []);
  on_delete_message = λ past r. none;
  on_offer = λ past e. sent;
  on_poll = λ past. proceed;
  on_wait = λ past d. none;
  ctx_err = λ past. none;
  is_time = λ s. true;
}

-- The downstream services and SQS are down.
abbrev pub broken : Env
broken = record calm {
  on_release_hold = λ past r. some (foreign "unavailable");
  on_commit_reservation = λ past r. some (foreign "unavailable");
  on_http_do = λ past r. ok (status 503);
  on_receive_message = λ past r. err (foreign "unavailable");
}

abbrev pub no_metrics : Metrics
no_metrics = record {
  events_total = [];
  latency_histogram = [];
  sqs_poll_errors = 0;
  active_workers = pos 0;
  processing_duration = [];
}

abbrev pub fresh : State
fresh = record { trace = []; metrics = no_metrics; events_chan = [] }
