-- ===== src/Handler/Outcomes.antt =====
-- The metrics and the spans of internal/handler/expired.go, approved.go and failed.go.
use reservation_worker.Base.{
  String, Bool, true, false, Option, none, some, List, [], ◌∷◌, Error, wrapped, ◌≡◌, ◌≢◌, arith,
  Result, ok, err, if◌then◌else◌,
}
use reservation_worker.Event.{Detail, expired, approved, failed, Event, parse_event_detail}
use reservation_worker.Metrics.{
  record_processing_duration, outcome_success, outcome_invalid_payload, outcome_downstream_error,
}
use reservation_worker.Client.{
  client_release_hold, client_commit_reservation, update_reservation_status,
}
use reservation_worker.Runtime.{
  Call, sleep, wait, start_span, set_attributes, record_error, set_status, error_status, ok_status,
  end_span, Attribute, Env, State, M,
}
use reservation_worker.Event.Laws.{Kind, expiry, approval, failure, kind_of_detail}
use reservation_worker.Handler.Kinds.{handler_name, span_name, attributes_of, process, handle}
use reservation_worker.Handler.Expired.{
  attributes_of_expired, process_expired, dispatch_expired, handle_expired,
}
use reservation_worker.Handler.Approved.{
  attributes_of_approved, process_approved, dispatch_approved, handle_approved,
}
use reservation_worker.Handler.Failed.{
  attributes_of_failed, process_failed, dispatch_failed, handle_failed,
}

-- The steps of spans in a trace.
abbrev pub is_span_call : Call → Bool
is_span_call (start_span _) = true
is_span_call (set_attributes _) = true
is_span_call (record_error _) = true
is_span_call (set_status _) = true
is_span_call end_span = true
is_span_call _ = false

abbrev pub is_wait : Call → Bool
is_wait (sleep _) = true
is_wait (wait _) = true
is_wait _ = false

abbrev pub select_calls : (Call → Bool) → List Call → List Call
select_calls p [] = []
select_calls p (c ∷ cs) = if p c then c ∷ select_calls p cs else select_calls p cs

abbrev pub outcome_of : Option Error → String
outcome_of none = outcome_success
outcome_of (some _) = outcome_downstream_error

-- How the span of a handler that returns this ends.
abbrev pub end_of_span : Option Error → List Call → List Call
end_of_span none before = end_span ∷ set_status ok_status ∷ before
end_of_span (some (wrapped _ e)) before =
    end_span ∷ set_status (error_status e) ∷ record_error e ∷ before
end_of_span (some e) before = end_span ∷ set_status (error_status e) ∷ record_error e ∷ before

-- What a handler that was given a detail of its kind leaves behind.
pub record Processed (k : Kind) (attributes : List (String × Attribute)) (s : State)
    (r : Option Error) (t : State) : Type 0 where
  pub measured : t.metrics ≡ record_processing_duration (handler_name k) (outcome_of r) s.metrics
  pub spans :
      select_calls is_span_call t.trace
      ≡ end_of_span r
          (set_attributes attributes ∷ start_span (span_name k) ∷ select_calls is_span_call s.trace)
  pub waits : select_calls is_wait t.trace ≡ select_calls is_wait s.trace
  pub events : t.events_chan ≡ s.events_chan

-- What a handler that was given anything else leaves behind: an error, counted, and nothing more.
pub record Rejected (k : Kind) (s : State) (r : Option Error) (t : State) : Type 0 where
  pub error : r ≢ none
  pub counted : t ≡ record s {
    metrics = record_processing_duration (handler_name k) outcome_invalid_payload s.metrics;
  }

-- What Handle of the handler for this kind leaves behind, by what the event's detail is parsed to.
abbrev pub Handled : Kind → Result Detail → State → Option Error × State → Type 0
Handled expiry (ok (expired d)) s (r, t) = Processed expiry (attributes_of_expired d) s r t
Handled approval (ok (approved d)) s (r, t) = Processed approval (attributes_of_approved d) s r t
Handled failure (ok (failed d)) s (r, t) = Processed failure (attributes_of_failed d) s r t
Handled k _ s (r, t) = Rejected k s r t

module _ (env : Env) (base_url : String) where
  process-Processed :
      (d : Detail) (s : State)
      → let (r, t) = process env base_url d s in
        Processed (kind_of_detail d) (attributes_of d) s r t
  unfolding process_expired process_approved process_failed client_release_hold
      client_commit_reservation update_reservation_status
  process-Processed (expired d) s = ground arith
  process-Processed (approved d) s = ground arith
  process-Processed (failed d) s = ground arith

  -- Handle, behind the parsing of the detail.
  abbrev dispatch : Kind → Result Detail → M (Option Error)
  dispatch expiry = dispatch_expired env base_url
  dispatch approval = dispatch_approved env base_url
  dispatch failure = dispatch_failed env base_url

  dispatch-Handled : (k : Kind) (d : Result Detail) (s : State) → Handled k d s (dispatch k d s)
  unfolding dispatch_expired dispatch_approved dispatch_failed
  dispatch-Handled expiry (ok (expired d)) s = process-Processed (expired d) s
  dispatch-Handled expiry (ok (approved d)) s = ground arith
  dispatch-Handled expiry (ok (failed d)) s = ground arith
  dispatch-Handled expiry (err e) s = ground arith
  dispatch-Handled approval (ok (approved d)) s = process-Processed (approved d) s
  dispatch-Handled approval (ok (expired d)) s = ground arith
  dispatch-Handled approval (ok (failed d)) s = ground arith
  dispatch-Handled approval (err e) s = ground arith
  dispatch-Handled failure (ok (failed d)) s = process-Processed (failed d) s
  dispatch-Handled failure (ok (expired d)) s = ground arith
  dispatch-Handled failure (ok (approved d)) s = ground arith
  dispatch-Handled failure (err e) s = ground arith

  -- Handle of each handler observes its duration once, under the outcome that its result has. Given a
  -- detail of its kind it opens one span with the detail's attributes and closes it with the matching
  -- status, waits for nothing and sends no event; given anything else it returns an error and changes
  -- only the metrics.
  pub handle-Handled :
      (k : Kind) (e : Event) (s : State)
      → Handled k (parse_event_detail e) s (handle env base_url k e s)
  unfolding handle_expired handle_approved handle_failed
  handle-Handled expiry e s = dispatch-Handled expiry (parse_event_detail e) s
  handle-Handled approval e s = dispatch-Handled approval (parse_event_detail e) s
  handle-Handled failure e s = dispatch-Handled failure (parse_event_detail e) s
