-- ===== src/Poller/Offer.antt =====
-- processMessage of internal/worker/poller.go: whether the pool takes the event of a message.
use reservation_worker.Base.{
  Bool, true, false, Option, none, some, List, [], ◌∷◌, Error, Result, ok, err, ◌≡◌, ◌≢◌, ◌⊎◌, inl,
  inr, refl, arith,
}
use reservation_worker.Event.{Event}
use reservation_worker.Config.{Config}
use reservation_worker.Runtime.{
  Message, Chosen, sent, done, elapsed, Call, offer, delete_message, Env, State,
}
use reservation_worker.Handler.Outcomes.{select_calls}
use reservation_worker.Poller.Defs.{prepare, send, process_message}

abbrev pub is_delete : Call → Bool
is_delete (delete_message _ _) = true
is_delete _ = false

abbrev pub is_offer : Call → Bool
is_offer (offer _) = true
is_offer _ = false

-- An event in front of the earlier ones, or nothing.
abbrev pub push_event : Result Event → List Event → List Event
push_event (ok e) before = e ∷ before
push_event (err _) before = before

abbrev pub push_offer : Result Event → List Call → List Call
push_offer (ok e) before = offer e ∷ before
push_offer (err _) before = before

module _ (env : Env) (cfg : Config) where
  -- Why a message is passed over: it has no event, or the pool did not take the event.
  pub data Refusal (m : Message) : Type 0 where
    no_event : (x : Error) → prepare env cfg m ≡ err x → Refusal m
    not_taken :
        (e : Event) (past : List Call)
        → prepare env cfg m ≡ ok e
        → env.on_offer past e ≢ sent
        → Refusal m

  -- `Kept messages kept`: the second list is left of the first when messages are passed over for a
  -- reason; the pool took the event of each message that is left.
  pub data Kept : List Message → List Message → Type 0 where
    none_left : Kept [] []
    skip : {m : Message} {ms ks : List Message} → Refusal m → Kept ms ks → Kept (m ∷ ms) ks
    keep :
        {m : Message} {ms ks : List Message} (e : Event) (past : List Call)
        → prepare env cfg m ≡ ok e
        → env.on_offer past e ≡ sent
        → Kept ms ks
        → Kept (m ∷ ms) (m ∷ ks)

  -- The deletions of messages, in front of the earlier ones.
  abbrev pub deletions : List Message → List Call → List Call
  deletions [] before = before
  deletions (m ∷ ms) before =
      deletions ms (delete_message cfg.sqs_queue_url m.receipt_handle ∷ before)

  -- The offers of the events of messages, in front of the earlier ones.
  abbrev pub offers : List Message → List Call → List Call
  offers [] before = before
  offers (m ∷ ms) before = offers ms (push_offer (prepare env cfg m) before)

  -- The events of messages, in front of the earlier ones.
  abbrev pub deliveries : List Message → List Event → List Event
  deliveries [] before = before
  deliveries (m ∷ ms) before = deliveries ms (push_event (prepare env cfg m) before)

  pub record Delivered (messages : List Message) (s t : State) : Type 0 where
    pub offered : select_calls is_offer t.trace ≡ offers messages (select_calls is_offer s.trace)
    pub taken : List Message
    pub kept : Kept messages taken
    pub deleted : select_calls is_delete t.trace ≡ deletions taken (select_calls is_delete s.trace)
    pub events : t.events_chan ≡ deliveries taken s.events_chan
    pub metrics : t.metrics ≡ s.metrics

  -- What a state has of another when a message was refused.
  pub record Passed (m : Message) (s t : State) : Type 0 where
    pub offered :
        select_calls is_offer t.trace
        ≡ push_offer (prepare env cfg m) (select_calls is_offer s.trace)
    pub deleted : select_calls is_delete t.trace ≡ select_calls is_delete s.trace
    pub events : t.events_chan ≡ s.events_chan
    pub metrics : t.metrics ≡ s.metrics

  pub record Taken (m : Message) (s : State) (out : Option Error × State) : Type 0 where
    pub event : Event
    pub prepared : prepare env cfg m ≡ ok event
    pub past : List Call
    pub chosen : env.on_offer past event ≡ sent
    pub accepted : out.0 ≡ none
    pub offered : select_calls is_offer out.1.trace ≡ offer event ∷ select_calls is_offer s.trace
    pub deleted : select_calls is_delete out.1.trace ≡ select_calls is_delete s.trace
    pub events : out.1.events_chan ≡ event ∷ s.events_chan
    pub metrics : out.1.metrics ≡ s.metrics

  pub record Refused (m : Message) (s : State) (out : Option Error × State) : Type 0 where
    pub error : Error
    pub refused : out.0 ≡ some error
    pub why : Refusal m
    pub same : Passed m s out.1

  send-cases :
      (m : Message) (event : Event) (s : State)
      → prepare env cfg m ≡ ok event
      → Taken m s (send env cfg event s) ⊎ Refused m s (send env cfg event s)
  unfolding send
  send-cases m event s h = go (env.on_offer s.trace event) refl
    where
      go :
          (c : Chosen)
          → env.on_offer s.trace event ≡ c
          → Taken m s (send env cfg event s) ⊎ Refused m s (send env cfg event s)
      go sent e = inl (
          rw (e, send)
            (record {
              event = event;
              prepared = h;
              past = s.trace;
              chosen = e;
              accepted = refl;
              offered = refl;
              deleted = refl;
              events = refl;
              metrics = refl;
            }))
      go (done x) e = inr (
          rw (e, send)
            (record {
              error = x;
              refused = refl;
              why = not_taken event s.trace h (λ q. cc);
              same = ground arith;
            }))
      go elapsed e = inr (
          rw (e, send)
            (record {
              error = _;
              refused = refl;
              why = not_taken event s.trace h (λ q. cc);
              same = ground arith;
            }))

  pub process_message-cases :
      (m : Message) (s : State)
      → Taken m s (process_message env cfg m s) ⊎ Refused m s (process_message env cfg m s)
  unfolding process_message
  process_message-cases m s = go (prepare env cfg m) refl
    where
      go :
          (r : Result Event)
          → prepare env cfg m ≡ r
          → Taken m s (process_message env cfg m s) ⊎ Refused m s (process_message env cfg m s)
      go (ok event) e = rw (e, process_message) (send-cases m event s e)
      go (err x) e = inr (
          rw (e, process_message)
            (record { error = x; refused = refl; why = no_event x e; same = ground arith }))
