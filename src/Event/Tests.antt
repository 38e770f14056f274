-- ===== src/Event/Tests.antt =====
-- The table tests of internal/handler/event_test.go, by evaluation, and the laws of events at samples.
use reservation_worker.Base.{arith, ◌≡◌, refl, some, [], ◌∷◌, pos, ok, err, unknown_event_type}
use reservation_worker.Json.{
  str, int, arr, obj, field, end, names, string_value, int_value, strings_value,
}
use reservation_worker.Json.Laws.{array_of}
use reservation_worker.Event.RoundTrip.{encode_detail, parse_event_detail-encode}
use reservation_worker.Event.Defs.{Detail, failed, expired, parse_event_detail}
use reservation_worker.Event.Decode.{Event, decode_expired, zero_expired, zero_failed, zero_event}

abbrev seats : Event
seats = record zero_event {
  event_type = "reservation.expired";
  detail = some (
      obj (
        field "event_id" (str "evt_123") (
          field "reservation_id" (str "rsv_456") (
            field "QTY" (int (pos 2))
              (field "seat_ids" (arr (array_of ("A1" ∷ "A2" ∷ []))) end)))));
}

parse_seats :
    parse_event_detail seats
    ≡ ok (
        expired (record zero_expired {
          event_id = "evt_123";
          reservation_id = "rsv_456";
          quantity = pos 2;
          seat_ids = "A1" ∷ "A2" ∷ [];
        }))
unfolding parse_event_detail decode_expired names string_value int_value strings_value
parse_seats = refl

parse_unknown :
    parse_event_detail (record seats { event_type = "unknown.event" })
    ≡ err (unknown_event_type "unknown.event")
unfolding parse_event_detail
parse_unknown = refl

parse_event_detail-encode_example :
    let d : Detail = failed (record zero_failed { error_code = "insufficient_funds" }) in
    let e : Event = record zero_event {
      event_type = "payment.failed";
      detail = some (encode_detail d);
    } in
    parse_event_detail e ≡ ok d
parse_event_detail-encode_example =
    let d : Detail = failed (record zero_failed { error_code = "insufficient_funds" }) in
    parse_event_detail-encode
      (record zero_event { event_type = "payment.failed"; detail = some (encode_detail d) }) d refl
      (omega arith, omega arith) refl
