-- ===== src/Poller/Defs.antt =====
-- internal/worker/poller.go
use reservation_worker.Base.{
  ℕ, zero, suc, String, ◌==◌, Option, none, some, List, [], ◌∷◌, Error, plain, wrapped, Result, ok,
  err, ℤ, pos, to_int32, if◌then◌else◌,
}
use reservation_worker.Event.{Event, decode_event}
use reservation_worker.Metrics.{record_sqs_poll_error}
use reservation_worker.Config.{Config}
use reservation_worker.Config.Parse.{atoi}
use reservation_worker.Runtime.{
  ReceiveMessageInput, Message, sent, done, elapsed, context_done, stopped, proceed,
  receive_message, delete_message, sleep, offer, Env, M, ◌>>=◌, ◌>>◌, return, act, ask, observe,
}

-- A map of Go, read at a key.
unfoldable pub lookup {ℓ} : {V : Type ℓ} → String → List (String × V) → Option V
lookup key [] = none
lookup key ((k, v) ∷ rest) = if k == key then some v else lookup key rest

-- `if traceID, ok := message.MessageAttributes["TraceId"]; ok && traceID.StringValue != nil`
unfoldable pub with_trace_id : Message → Event → Event
unfolding lookup
with_trace_id m e = elim (lookup "TraceId" m.message_attributes) [
  | some (some t) ↦ record e { trace_id = t }
  | some none ↦ e
  | none ↦ e
]

-- `if event.ID == "" && message.MessageId != nil`
unfoldable pub with_message_id : Message → Event → Event
with_message_id m e = elim m.message_id [
  | some id ↦ if e.id == "" then record e { id = id } else e
  | none ↦ e
]

-- getMessageApproximateReceiveCount
unfoldable pub approximate_receive_count : Message → ℤ
unfolding lookup
approximate_receive_count m = elim (lookup "ApproximateReceiveCount" m.attributes) [
  | none ↦ pos 0
  | some text ↦ elim (atoi text) [ none ↦ pos 0 | some count ↦ count ]
]

module _ (env : Env) (cfg : Config) where
  -- The part of processMessage before its `select`: the event of a message, or why there is none.
  unfoldable pub prepare : Message → Result Event
  unfolding with_trace_id with_message_id
  prepare m = elim m.body [
    | none ↦ err (plain "message body is nil")
    | some text ↦ elim (decode_event env.is_time text) [
      | err e ↦ err (wrapped "failed to unmarshal event" e)
      | ok event ↦ ok (with_message_id m (with_trace_id m event))
    ]
  ]

  -- The `select` of processMessage.
  unfoldable pub send : Event → M (Option Error)
  send event s = elim (env.on_offer s.trace event) [
    | sent ↦ (none, record s { trace = offer event ∷ s.trace; events_chan = event ∷ s.events_chan })
    | done e ↦ (some e, record s { trace = offer event ∷ s.trace })
    | elapsed ↦ (
      some (plain "timeout sending event to worker pool"),
      record s { trace = offer event ∷ s.trace },
    )
  ]

  unfoldable pub process_message : Message → M (Option Error)
  process_message m s = elim (prepare m) [ err e ↦ (some e, s) | ok event ↦ send event s ]

  -- deleteMessage
  unfoldable pub delete : Message → M (Option Error)
  delete m = do
    answer ←
        ask (delete_message cfg.sqs_queue_url m.receipt_handle)
          (λ past. env.on_delete_message past m.receipt_handle)
    return (elim answer [ none ↦ none | some e ↦ some (wrapped "failed to delete message" e) ])

  -- The loop over the messages. An error of either step is logged and passed over.
  unfoldable pub process_all : List Message → M (Unit {0})
  process_all [] s = (tt, s)
  process_all (m ∷ ms) s =
      let rest = process_all ms in
      let (failure, t) = process_message m s in
      elim failure [ some e ↦ rest t | none ↦ rest (delete m t).1 ]

  abbrev pub receive_input : ReceiveMessageInput
  receive_input = record {
    queue_url = cfg.sqs_queue_url;
    max_number_of_messages = 10;
    wait_time_seconds = to_int32 cfg.sqs_wait_time;
    message_attribute_names = "All" ∷ [];
    attribute_names = "All" ∷ [];
  }

  -- What pollOnce does with the answer of ReceiveMessage.
  unfoldable pub after_receive : Result (List Message) → M (Option Error)
  unfolding process_all
  after_receive (err e) s = (some (wrapped "failed to receive messages from SQS" e), s)
  after_receive (ok messages) s = (none, (process_all messages s).1)

  unfoldable pub poll_once : M (Option Error)
  unfolding after_receive
  poll_once = do
    answer ← ask (receive_message receive_input) (λ past. env.on_receive_message past receive_input)
    after_receive answer

  -- 5 * time.Second
  abbrev pub poll_backoff : ℤ
  poll_backoff = pos 5000000000

  -- What the loop does with the error of pollOnce.
  unfoldable pub after_poll : Option Error → M (Unit {0})
  after_poll none = return tt
  after_poll (some e) = do observe record_sqs_poll_error; act (sleep poll_backoff)

  -- SQSPoller.Start, for so many rounds: `none` means that it was still polling after them.
  unfoldable pub start : ℕ → M (Option (Option Error))
  unfolding poll_once after_poll
  start zero s = (none, s)
  start (suc rounds) s =
      let again = start rounds in
      elim (env.on_poll s.trace) [
        | context_done e ↦ (some (some e), s)
        | stopped ↦ (some none, s)
        | proceed ↦ let (e, t) = poll_once s in again (after_poll e t).1
      ]
