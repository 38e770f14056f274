-- ===== src/Event/Defs.antt =====
-- internal/handler/event.go: the types of event, and ParseEventDetail.
use reservation_worker.Event.Decode.{
  ReservationExpiredDetail, PaymentApprovedDetail, PaymentFailedDetail, Event, decode_expired,
  decode_approved, decode_failed,
}
use reservation_worker.Base.{String, ◌==◌, ◌||◌, Result, ok, err, unknown_event_type, if◌then◌else◌}
use reservation_worker.Base.ResultDo.{◌>>=◌}

abbrev pub event_type_reservation_expired : String
event_type_reservation_expired = "reservation.expired"

abbrev pub event_type_payment_approved : String
event_type_payment_approved = "payment.approved"

abbrev pub event_type_payment_failed : String
event_type_payment_failed = "payment.failed"

abbrev pub event_type_reservation_hold_created : String
event_type_reservation_hold_created = "reservation.hold.created"

abbrev pub event_type_reservation_hold_expired : String
event_type_reservation_hold_expired = "reservation.hold.expired"

-- The dynamic type of what ParseEventDetail returns as interface{}.
pub data Detail : Type 0 where
  expired : ReservationExpiredDetail → Detail
  approved : PaymentApprovedDetail → Detail
  failed : PaymentFailedDetail → Detail

unfoldable pub parse_event_detail : Event → Result Detail
parse_event_detail e =
    if e.event_type == event_type_reservation_expired
      || e.event_type == event_type_reservation_hold_expired
    then (do d ← decode_expired e.detail; ok (expired d))
    else if e.event_type == event_type_payment_approved
    then (do d ← decode_approved e.detail; ok (approved d))
    else if e.event_type == event_type_payment_failed
    then (do d ← decode_failed e.detail; ok (failed d))
    else err (unknown_event_type e.event_type)
