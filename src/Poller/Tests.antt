-- ===== src/Poller/Tests.antt =====
-- One poll of two messages, and the theorems about the poller at it.
use reservation_worker.Base.{none, some, [], ◌∷◌, ok, ◌≡◌, refl, pos}
use reservation_worker.Json.{names, string_value, str, obj, field, end}
use reservation_worker.Event.{Event, decode_event}
use reservation_worker.Event.Decode.{zero_event}
use reservation_worker.Config.Parse.{atoi}
use reservation_worker.Runtime.{delete_message}
use reservation_worker.Handler.Outcomes.{select_calls}
use reservation_worker.Poller.Defs.{
  prepare, process_message, delete, send, poll_once, start, approximate_receive_count,
}
use reservation_worker.Poller.Offer.{is_delete, Delivered}
use reservation_worker.Poller.Delivery.{poll_once-Delivered}
use reservation_worker.Poller.Loop.{
  Rounds, EndedBy, start-Rounds, failures, Balanced, Rounds-Balanced,
}
use reservation_worker.Poller.Prepare.{prepare-ids}
use reservation_worker.Samples.{config, calm, broken, fresh, good_message, bad_message}

abbrev delivered_event : Event
delivered_event = record zero_event { id = "m1"; event_type = "payment.approved"; trace_id = "t1" }

-- The message that is no event is neither handed over nor deleted.
poll_once_test :
    let (e, t) = poll_once calm config fresh in
    (e ≡ none)
    × (t.events_chan ≡ delivered_event ∷ [])
    × (select_calls is_delete t.trace ≡ delete_message "https://sqs/events" (some "r1") ∷ [])
unfolding poll_once process_message delete send prepare decode_event names string_value
poll_once_test = (refl, refl, refl)

receive_count_test : approximate_receive_count good_message ≡ pos 3
unfolding approximate_receive_count atoi
receive_count_test = refl

poll_once-Delivered_example :
    ((poll_once calm config fresh).0 ≡ none)
    × Delivered calm config (good_message ∷ bad_message ∷ []) fresh (poll_once calm config fresh).1
poll_once-Delivered_example =
    poll_once-Delivered calm config (good_message ∷ bad_message ∷ []) fresh refl

start-Rounds_example :
    let (result, t) = start broken config 2 fresh in
    Rounds broken config fresh t × EndedBy broken config result t
start-Rounds_example = start-Rounds broken config 2 fresh

Rounds-Balanced_example :
    Balanced broken config
      (failures broken config (start-Rounds broken config 2 fresh).0)
      fresh
      (start broken config 2 fresh).1
Rounds-Balanced_example = Rounds-Balanced broken config (start-Rounds broken config 2 fresh).0

good_body :
    decode_event calm.is_time (some (obj (field "type" (str "payment.approved") end)))
    ≡ ok (record zero_event { event_type = "payment.approved" })
unfolding decode_event names string_value
good_body = refl

prepare-ids_example : prepare calm config good_message ≡ ok delivered_event
unfolding prepare
prepare-ids_example = prepare-ids calm config good_message refl good_body
