-- ===== src/Event/RoundTrip.antt =====
-- Encoders for the details of internal/handler/event.go, and what decoding does with their documents.
use reservation_worker.Base.{String, some, List, Fits, half64, ok, ◌≡◌, arith}
use reservation_worker.Json.{Json, str, int, arr, obj, field, end, names, string_value}
use reservation_worker.Json.Laws.{array_of, int_value-Fits, strings_value-array_of}
use reservation_worker.Event.Defs.{Detail, expired, approved, failed, parse_event_detail}
use reservation_worker.Event.Laws.{kind_of_type, kind_of_detail}
use reservation_worker.Event.Decode.{
  Event, ReservationExpiredDetail, PaymentApprovedDetail, PaymentFailedDetail, decode_expired,
  decode_approved, decode_failed,
}

abbrev pub strings : List String → Json
strings ss = arr (array_of ss)

abbrev pub encode_expired : ReservationExpiredDetail → Json
encode_expired d = obj (
    field "reservation_id" (str d.reservation_id) (
      field "event_id" (str d.event_id) (
        field "qty" (int d.quantity) (
          field "seat_ids" (strings d.seat_ids)
            (field "user_id" (str d.user_id) (field "expires_at" (str d.expires_at) end))))))

abbrev pub encode_approved : PaymentApprovedDetail → Json
encode_approved d = obj (
    field "reservation_id" (str d.reservation_id) (
      field "payment_intent_id" (str d.payment_intent_id) (
        field "amount" (int d.amount) (
          field "currency" (str d.currency) (
            field "event_id" (str d.event_id) (
              field "user_id" (str d.user_id)
                (field "seat_ids" (strings d.seat_ids) (field "qty" (int d.quantity) end))))))))

abbrev pub encode_failed : PaymentFailedDetail → Json
encode_failed d = obj (
    field "reservation_id" (str d.reservation_id) (
      field "payment_intent_id" (str d.payment_intent_id) (
        field "amount" (int d.amount) (
          field "currency" (str d.currency) (
            field "error_code" (str d.error_code) (
              field "error_message" (str d.error_message) (
                field "event_id" (str d.event_id) (
                  field "user_id" (str d.user_id) (
                    field "seat_ids" (strings d.seat_ids)
                      (field "qty" (int d.quantity) end))))))))))

decode_expired-encode_expired :
    (d : ReservationExpiredDetail)
    → Fits half64 d.quantity
    → decode_expired (some (encode_expired d)) ≡ ok d
unfolding decode_expired names string_value
decode_expired-encode_expired d q =
    rw (int_value-Fits _ d.quantity q, strings_value-array_of d.seat_ids)

decode_approved-encode_approved :
    (d : PaymentApprovedDetail)
    → Fits half64 d.amount
    → Fits half64 d.quantity
    → decode_approved (some (encode_approved d)) ≡ ok d
unfolding decode_approved names string_value
decode_approved-encode_approved d a q =
    rw (
      int_value-Fits _ d.amount a,
      strings_value-array_of d.seat_ids,
      int_value-Fits _ d.quantity q,
    )

decode_failed-encode_failed :
    (d : PaymentFailedDetail)
    → Fits half64 d.amount
    → Fits half64 d.quantity
    → decode_failed (some (encode_failed d)) ≡ ok d
unfolding decode_failed names string_value
decode_failed-encode_failed d a q =
    rw (
      int_value-Fits _ d.amount a,
      strings_value-array_of d.seat_ids,
      int_value-Fits _ d.quantity q,
    )

abbrev pub encode_detail : Detail → Json
encode_detail (expired d) = encode_expired d
encode_detail (approved d) = encode_approved d
encode_detail (failed d) = encode_failed d

-- The numbers of a detail are ints of 64 bits.
abbrev pub DetailFits : Detail → Type 0
DetailFits (expired d) = Fits half64 d.quantity
DetailFits (approved d) = Fits half64 d.amount × Fits half64 d.quantity
DetailFits (failed d) = Fits half64 d.amount × Fits half64 d.quantity

-- A detail whose numbers are ints of 64 bits, written with the names of its tags, is what
-- ParseEventDetail gives for any event of a type of its kind that carries it.
pub parse_event_detail-encode :
    (e : Event) (d : Detail)
    → kind_of_type e.event_type ≡ some (kind_of_detail d)
    → DetailFits d
    → e.detail ≡ some (encode_detail d)
    → parse_event_detail e ≡ ok d
unfolding parse_event_detail
parse_event_detail-encode e (expired d) h q c = ground (arith, decode_expired-encode_expired d q)
parse_event_detail-encode e (approved d) h q c =
    ground (arith, decode_approved-encode_approved d q.0 q.1)
parse_event_detail-encode e (failed d) h q c = ground (arith, decode_failed-encode_failed d q.0 q.1)
