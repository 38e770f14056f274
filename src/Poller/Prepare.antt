-- ===== src/Poller/Prepare.antt =====
-- processMessage of internal/worker/poller.go: the id and the trace id of an event.
use reservation_worker.Base.{String, ◌==◌, Option, none, some, ok, ◌≡◌, arith, if◌then◌else◌}
use reservation_worker.Json.{Json}
use reservation_worker.Event.{Event, decode_event}
use reservation_worker.Config.{Config}
use reservation_worker.Runtime.{Message, Env}
use reservation_worker.Poller.Defs.{lookup, prepare}

-- The id is the one in the body, or the message's where the body has none.
abbrev pub chosen_id : String → Option String → String
chosen_id id none = id
chosen_id id (some message_id) = if id == "" then message_id else id

-- The trace id is the string value of the attribute `TraceId`, or the one in the body.
abbrev pub chosen_trace_id : String → Option (Option String) → String
chosen_trace_id trace_id (some (some t)) = t
chosen_trace_id trace_id _ = trace_id

module _ (env : Env) (cfg : Config) where
  -- A body that is an event gives that event, with the two ids chosen (the message's id only
  -- where the body has none, the attribute TraceId before the trace id of the body) and all else
  -- as it is.
  pub prepare-ids :
      (m : Message) {text : Option Json} {event : Event}
      → m.body ≡ some text
      → decode_event env.is_time text ≡ ok event
      → prepare env cfg m
        ≡ ok (record event {
          id = chosen_id event.id m.message_id;
          trace_id = chosen_trace_id event.trace_id (lookup "TraceId" m.message_attributes);
        })
  unfolding prepare
  prepare-ids m h k = ground arith
