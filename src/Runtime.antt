-- ===== src/Runtime.antt =====
-- The state that the components act on, the calls that leave the process, and the environment that
-- answers them. A method is a function on the state that returns its result and the new state.
use reservation_worker.Base.{ℕ, String, Bool, Option, List, ◌∷◌, ℤ, Error, Result}
use reservation_worker.Json.{Json}
use reservation_worker.Event.{Event}
use reservation_worker.Metrics.{Metrics}

-- The fields of the request messages of proto-contracts reservation/v1 that the program sets.
pub record ReleaseHoldRequest : Type 0 where
  pub event_id : String
  pub reservation_id : String
  pub quantity : ℤ
  pub seat_ids : List String

pub record CommitReservationRequest : Type 0 where
  pub event_id : String
  pub reservation_id : String
  pub quantity : ℤ
  pub seat_ids : List String
  pub payment_intent_id : String

-- `body` is the JSON document that is sent, `none` without a body.
pub record HttpRequest : Type 0 where
  pub method : String
  pub url : String
  pub content_type : Option String
  pub body : Option Json

-- `body` is the text of the body, `document` the JSON document that it begins with.
pub record HttpResponse : Type 0 where
  pub status_code : ℕ
  pub body : String
  pub document : Option Json

pub record ReceiveMessageInput : Type 0 where
  pub queue_url : String
  pub max_number_of_messages : ℕ
  pub wait_time_seconds : ℤ
  pub message_attribute_names : List String
  pub attribute_names : List String

-- A message of SQS. `body` and the attributes are pointers, which may be nil; the document of a body
-- is `none` where the text is no JSON.
pub record Message : Type 0 where
  pub message_id : Option String
  pub receipt_handle : Option String
  pub body : Option (Option Json)
  pub message_attributes : List (String × Option String)
  pub attributes : List (String × String)

-- What a `select` that sends an event, or that waits for a delay, ended by.
pub data Chosen : Type 0 where
  sent : Chosen
  done : Error → Chosen
  elapsed : Chosen

-- The case that the `select` at the head of the polling loop takes.
pub data PollCase : Type 0 where
  context_done : Error → PollCase
  stopped : PollCase
  proceed : PollCase

-- The status that a span is given. The description that goes with an error is its text, represented
-- by the error.
pub data SpanStatus : Type 0 where
  error_status : Error → SpanStatus
  ok_status : SpanStatus

-- The value of an attribute of a span.
pub data Attribute : Type 0 where
  text : String → Attribute
  number : ℤ → Attribute

-- What leaves the process, or waits: gRPC calls with their timeout in milliseconds, HTTP requests,
-- SQS requests, time.Sleep and `select` with time.After in nanoseconds, the offer of an event to the
-- worker pool, and the steps of a tracing span.
pub data Call : Type 0 where
  release_hold : ℕ → ReleaseHoldRequest → Call
  commit_reservation : ℕ → CommitReservationRequest → Call
  http_do : HttpRequest → Call
  receive_message : ReceiveMessageInput → Call
  delete_message : String → Option String → Call
  sleep : ℤ → Call
  wait : ℤ → Call
  offer : Event → Call
  start_span : String → Call
  set_attributes : List (String × Attribute) → Call
  record_error : Error → Call
  set_status : SpanStatus → Call
  end_span : Call

-- The environment: each answer may depend on everything that the process did before, newest first.
pub record Env : Type 0 where
  pub on_release_hold : List Call → ReleaseHoldRequest → Option Error
  pub on_commit_reservation : List Call → CommitReservationRequest → Option Error
  pub on_new_request : String → Option Error
  pub on_http_do : List Call → HttpRequest → Result HttpResponse
  pub on_receive_message : List Call → ReceiveMessageInput → Result (List Message)
  pub on_delete_message : List Call → Option String → Option Error
  pub on_offer : List Call → Event → Chosen
  pub on_poll : List Call → PollCase
  pub on_wait : List Call → ℤ → Option Error
  pub ctx_err : List Call → Option Error
  pub is_time : String → Bool

-- `trace` is the record of the calls, newest first; `events_chan` the events handed to the pool.
pub record State : Type 0 where
  pub trace : List Call
  pub metrics : Metrics
  pub events_chan : List Event

abbrev pub M {ℓ} : Type ℓ → Type ℓ
M A = State → A × State

infixl 5 ◌>>=◌ ◌>>◌
abbrev pub ◌>>=◌ {ℓ κ} : {A : Type ℓ} {B : Type κ} → M A → (A → M B) → M B
◌>>=◌ m f s = let (a, t) = m s in f a t

abbrev pub ◌>>◌ {ℓ} : {B : Type ℓ} → M (Unit {0}) → M B → M B
◌>>◌ m k s = k (m s).1

abbrev pub return {ℓ} : {A : Type ℓ} → A → M A
return a s = (a, s)

-- Add a call to the trace.
abbrev pub act : Call → M (Unit {0})
act c s = (tt, record s { trace = c ∷ s.trace })

-- Make a call and take the answer that the environment gives at that moment.
abbrev pub ask {ℓ} : {A : Type ℓ} → Call → (List Call → A) → M A
ask c answer s = (answer s.trace, record s { trace = c ∷ s.trace })

abbrev pub observe : (Metrics → Metrics) → M (Unit {0})
observe f s = (tt, record s { metrics = f s.metrics })
