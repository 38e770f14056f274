-- ===== src/Event/Laws.antt =====
-- ParseEventDetail of internal/handler/event.go against the table of event types.
use reservation_worker.Base.{
  String, ◌==◌, List, [], ◌∷◌, Option, none, some, ok, err, unknown_event_type, ◌≡◌, arith,
  if◌then◌else◌,
}
use reservation_worker.Event.Decode.{Event}
use reservation_worker.Event.Defs.{Detail, expired, approved, failed, parse_event_detail}

-- The kinds of detail.
pub data Kind : Type 0 where
  expiry approval failure : Kind

-- The kind of detail that goes with each type, from the table of the README.
abbrev pub kinds : List (String × Kind)
kinds =
    ("reservation.expired", expiry)
    ∷ ("reservation.hold.expired", expiry)
    ∷ ("payment.approved", approval)
    ∷ ("payment.failed", failure)
    ∷ []

abbrev pub kind_in : List (String × Kind) → String → Option Kind
kind_in [] s = none
kind_in ((t, k) ∷ rest) s = if s == t then some k else kind_in rest s

abbrev pub kind_of_type : String → Option Kind
kind_of_type = kind_in kinds

-- A detail of this kind.
abbrev pub kind_of_detail : Detail → Kind
kind_of_detail (expired _) = expiry
kind_of_detail (approved _) = approval
kind_of_detail (failed _) = failure

-- A detail that ParseEventDetail returns is of the kind that the type of the event names.
pub parse_event_detail-kind :
    (e : Event) {d : Detail}
    → parse_event_detail e ≡ ok d
    → kind_of_type e.event_type ≡ some (kind_of_detail d)
unfolding parse_event_detail
parse_event_detail-kind e h = ground arith

-- An unknown type is refused, whatever the detail; a known one is never refused for its type.
pub parse_event_detail-unknown :
    (e : Event)
    → kind_of_type e.event_type ≡ none
    → parse_event_detail e ≡ err (unknown_event_type e.event_type)
unfolding parse_event_detail
parse_event_detail-unknown e h = ground arith
