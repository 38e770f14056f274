-- ===== src/Client/Details.antt =====
-- ReservationDetails of internal/client/reservation.go, as encoding/json fills it in.
use reservation_worker.Base.{
  String, Bool, Option, none, List, [], ℤ, pos, Result, ok, if◌then◌else◌,
}
use reservation_worker.Base.ResultDo.{◌>>=◌}
use reservation_worker.Json.{Json, names, string_value, int_value, strings_value, time_value}

pub record ReservationDetails : Type 0 where
  pub id : String
  pub event_id : String
  pub user_id : String
  pub status : String
  pub seat_ids : List String
  pub quantity : ℤ
  pub total_price : ℤ
  pub hold_expires_at : Option String
  pub created_at : Option String
  pub updated_at : Option String

abbrev pub zero_details : ReservationDetails
zero_details = record {
  id = "";
  event_id = "";
  user_id = "";
  status = "";
  seat_ids = [];
  quantity = pos 0;
  total_price = pos 0;
  hold_expires_at = none;
  created_at = none;
  updated_at = none;
}

unfoldable pub set_details :
    (String → Bool) → String → Json → ReservationDetails → Result ReservationDetails
set_details is_time key v d =
    if names key "reservation_id"
    then (do x ← string_value d.id v; ok (record d { id = x }))
    else if names key "event_id"
    then (do x ← string_value d.event_id v; ok (record d { event_id = x }))
    else if names key "user_id"
    then (do x ← string_value d.user_id v; ok (record d { user_id = x }))
    else if names key "status"
    then (do x ← string_value d.status v; ok (record d { status = x }))
    else if names key "seat_ids"
    then (do x ← strings_value v; ok (record d { seat_ids = x }))
    else if names key "quantity"
    then (do x ← int_value d.quantity v; ok (record d { quantity = x }))
    else if names key "total_price"
    then (do x ← int_value d.total_price v; ok (record d { total_price = x }))
    else if names key "hold_expires_at"
    then (do x ← time_value is_time d.hold_expires_at v; ok (record d { hold_expires_at = x }))
    else if names key "created_at"
    then (do x ← time_value is_time d.created_at v; ok (record d { created_at = x }))
    else if names key "updated_at"
    then (do x ← time_value is_time d.updated_at v; ok (record d { updated_at = x }))
    else ok d
