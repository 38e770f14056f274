-- ===== src/Event/Decode.antt =====
-- The structs of internal/handler/event.go and what encoding/json does with their tags.
use reservation_worker.Base.{
  String, Bool, Option, none, some, List, [], ℤ, pos, Result, ok, if◌then◌else◌,
}
use reservation_worker.Base.ResultDo.{◌>>=◌}
use reservation_worker.Json.{
  Json, names, string_value, int_value, strings_value, time_value, unmarshal,
}

pub record ReservationExpiredDetail : Type 0 where
  pub reservation_id : String
  pub event_id : String
  pub quantity : ℤ
  pub seat_ids : List String
  pub user_id : String
  pub expires_at : String

pub record PaymentApprovedDetail : Type 0 where
  pub reservation_id : String
  pub payment_intent_id : String
  pub amount : ℤ
  pub currency : String
  pub event_id : String
  pub user_id : String
  pub seat_ids : List String
  pub quantity : ℤ

pub record PaymentFailedDetail : Type 0 where
  pub reservation_id : String
  pub payment_intent_id : String
  pub amount : ℤ
  pub currency : String
  pub error_code : String
  pub error_message : String
  pub event_id : String
  pub user_id : String
  pub seat_ids : List String
  pub quantity : ℤ

-- `detail` is a json.RawMessage: the document that it holds, `none` while it holds no bytes.
-- `time` is the text of the time, `none` for the zero time.
pub record Event : Type 0 where
  pub id : String
  pub event_type : String
  pub source : String
  pub detail : Option Json
  pub time : Option String
  pub trace_id : String
  pub version : String
  pub region : String
  pub account : String
  pub resources : List String

abbrev pub zero_expired : ReservationExpiredDetail
zero_expired = record {
  reservation_id = "";
  event_id = "";
  quantity = pos 0;
  seat_ids = [];
  user_id = "";
  expires_at = "";
}

abbrev pub zero_approved : PaymentApprovedDetail
zero_approved = record {
  reservation_id = "";
  payment_intent_id = "";
  amount = pos 0;
  currency = "";
  event_id = "";
  user_id = "";
  seat_ids = [];
  quantity = pos 0;
}

abbrev pub zero_failed : PaymentFailedDetail
zero_failed = record {
  reservation_id = "";
  payment_intent_id = "";
  amount = pos 0;
  currency = "";
  error_code = "";
  error_message = "";
  event_id = "";
  user_id = "";
  seat_ids = [];
  quantity = pos 0;
}

abbrev pub zero_event : Event
zero_event = record {
  id = "";
  event_type = "";
  source = "";
  detail = none;
  time = none;
  trace_id = "";
  version = "";
  region = "";
  account = "";
  resources = [];
}

unfoldable pub set_expired :
    String → Json → ReservationExpiredDetail → Result ReservationExpiredDetail
set_expired key v d =
    if names key "reservation_id"
    then (do s ← string_value d.reservation_id v; ok (record d { reservation_id = s }))
    else if names key "event_id"
    then (do s ← string_value d.event_id v; ok (record d { event_id = s }))
    else if names key "qty"
    then (do n ← int_value d.quantity v; ok (record d { quantity = n }))
    else if names key "seat_ids"
    then (do ss ← strings_value v; ok (record d { seat_ids = ss }))
    else if names key "user_id"
    then (do s ← string_value d.user_id v; ok (record d { user_id = s }))
    else if names key "expires_at"
    then (do s ← string_value d.expires_at v; ok (record d { expires_at = s }))
    else ok d

unfoldable pub set_approved : String → Json → PaymentApprovedDetail → Result PaymentApprovedDetail
set_approved key v d =
    if names key "reservation_id"
    then (do s ← string_value d.reservation_id v; ok (record d { reservation_id = s }))
    else if names key "payment_intent_id"
    then (do s ← string_value d.payment_intent_id v; ok (record d { payment_intent_id = s }))
    else if names key "amount"
    then (do n ← int_value d.amount v; ok (record d { amount = n }))
    else if names key "currency"
    then (do s ← string_value d.currency v; ok (record d { currency = s }))
    else if names key "event_id"
    then (do s ← string_value d.event_id v; ok (record d { event_id = s }))
    else if names key "user_id"
    then (do s ← string_value d.user_id v; ok (record d { user_id = s }))
    else if names key "seat_ids"
    then (do ss ← strings_value v; ok (record d { seat_ids = ss }))
    else if names key "qty"
    then (do n ← int_value d.quantity v; ok (record d { quantity = n }))
    else ok d

unfoldable pub set_failed : String → Json → PaymentFailedDetail → Result PaymentFailedDetail
set_failed key v d =
    if names key "reservation_id"
    then (do s ← string_value d.reservation_id v; ok (record d { reservation_id = s }))
    else if names key "payment_intent_id"
    then (do s ← string_value d.payment_intent_id v; ok (record d { payment_intent_id = s }))
    else if names key "amount"
    then (do n ← int_value d.amount v; ok (record d { amount = n }))
    else if names key "currency"
    then (do s ← string_value d.currency v; ok (record d { currency = s }))
    else if names key "error_code"
    then (do s ← string_value d.error_code v; ok (record d { error_code = s }))
    else if names key "error_message"
    then (do s ← string_value d.error_message v; ok (record d { error_message = s }))
    else if names key "event_id"
    then (do s ← string_value d.event_id v; ok (record d { event_id = s }))
    else if names key "user_id"
    then (do s ← string_value d.user_id v; ok (record d { user_id = s }))
    else if names key "seat_ids"
    then (do ss ← strings_value v; ok (record d { seat_ids = ss }))
    else if names key "qty"
    then (do n ← int_value d.quantity v; ok (record d { quantity = n }))
    else ok d

unfoldable pub set_event : (String → Bool) → String → Json → Event → Result Event
set_event is_time key v e =
    if names key "id"
    then (do s ← string_value e.id v; ok (record e { id = s }))
    else if names key "type"
    then (do s ← string_value e.event_type v; ok (record e { event_type = s }))
    else if names key "source"
    then (do s ← string_value e.source v; ok (record e { source = s }))
    else if names key "detail"
    then ok (record e { detail = some v })
    else if names key "time"
    then (do t ← time_value is_time e.time v; ok (record e { time = t }))
    else if names key "trace_id"
    then (do s ← string_value e.trace_id v; ok (record e { trace_id = s }))
    else if names key "version"
    then (do s ← string_value e.version v; ok (record e { version = s }))
    else if names key "region"
    then (do s ← string_value e.region v; ok (record e { region = s }))
    else if names key "account"
    then (do s ← string_value e.account v; ok (record e { account = s }))
    else if names key "resources"
    then (do ss ← strings_value v; ok (record e { resources = ss }))
    else ok e

-- json.Unmarshal into a new struct of each type.
unfoldable pub decode_expired : Option Json → Result ReservationExpiredDetail
unfolding set_expired unmarshal
decode_expired doc = unmarshal set_expired doc zero_expired

unfoldable pub decode_approved : Option Json → Result PaymentApprovedDetail
unfolding set_approved unmarshal
decode_approved doc = unmarshal set_approved doc zero_approved

unfoldable pub decode_failed : Option Json → Result PaymentFailedDetail
unfolding set_failed unmarshal
decode_failed doc = unmarshal set_failed doc zero_failed

unfoldable pub decode_event : (String → Bool) → Option Json → Result Event
unfolding set_event unmarshal
decode_event is_time doc = unmarshal (set_event is_time) doc zero_event
