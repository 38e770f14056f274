-- ===== src/Poller/Loop.antt =====
-- Start of internal/worker/poller.go, round by round.
use reservation_worker.Base.{
  ℕ, zero, suc, ◌+◌, Option, none, some, List, [], ◌∷◌, Error, Result, ok, err, ◌≡◌, refl, arith,
  pos, ap, ◌∙◌,
}
use reservation_worker.Config.{Config}
use reservation_worker.Runtime.{
  Message, Call, sleep, receive_message, PollCase, context_done, stopped, proceed, Env, State,
}
use reservation_worker.Handler.Outcomes.{select_calls, is_wait}
use reservation_worker.Poller.Defs.{
  process_message, send, delete, process_all, after_receive, receive_input, poll_once, after_poll,
  start,
}

module _ (env : Env) (cfg : Config) where
  -- The rounds of the loop that went through pollOnce, from one state to another.
  pub data Rounds : State → State → Type 0 where
    now : {s : State} → Rounds s s
    round :
        {s t : State}
        → env.on_poll s.trace ≡ proceed
        → Rounds (after_poll env cfg (poll_once env cfg s).0 (poll_once env cfg s).1).1 t
        → Rounds s t

  -- Why the loop returned what it did.
  pub data Stopped (t : State) (result : Option Error) : Type 0 where
    by_context :
        (e : Error) → env.on_poll t.trace ≡ context_done e → result ≡ some e → Stopped t result
    by_stop : env.on_poll t.trace ≡ stopped → result ≡ none → Stopped t result

  -- What the loop has come to: still polling, or stopped for a reason.
  abbrev pub EndedBy : Option (Option Error) → State → Type 0
  EndedBy none t = Unit
  EndedBy (some r) t = Stopped t r

  abbrev Accounted : ℕ → State → Type 0
  Accounted rounds s = let (result, t) = start env cfg rounds s in Rounds s t × EndedBy result t

  start-suc :
      (rounds : ℕ) (s : State)
      → ((u : State) → Accounted rounds u)
      → (c : PollCase) → env.on_poll s.trace ≡ c
      → Accounted (suc rounds) s
  unfolding start
  start-suc rounds s rest (context_done e) h = rw (h, start) (now, by_context e h refl)
  start-suc rounds s rest stopped h = rw (h, start) (now, by_stop h refl)
  start-suc rounds s rest proceed h =
      let (done_so_far, verdict) =
        rest (after_poll env cfg (poll_once env cfg s).0 (poll_once env cfg s).1).1 in
      rw (h, start) (round h done_so_far, verdict)

  -- The polling loop goes through rounds only, and returns only when the context or Stop ends it:
  -- no error of SQS does.
  pub start-Rounds :
      (rounds : ℕ) (s : State)
      → let (result, t) = start env cfg rounds s in Rounds s t × EndedBy result t
  unfolding start
  start-Rounds zero s = (now, tt)
  start-Rounds (suc rounds) s = start-suc rounds s (start-Rounds rounds) (env.on_poll s.trace) refl

  abbrev pub add_failure : Result (List Message) → ℕ → ℕ
  add_failure (err e) n = suc n
  add_failure (ok ms) n = n

  -- How many rounds got an error from ReceiveMessage.
  abbrev pub failures : {s t : State} → Rounds s t → ℕ
  failures now = 0
  failures (round {s} p rest) =
      add_failure (env.on_receive_message s.trace (receive_input env cfg)) (failures rest)

  -- So many waits of five seconds, in front of the earlier ones.
  abbrev pub pauses : ℕ → List Call → List Call
  pauses zero before = before
  pauses (suc n) before = pauses n (sleep (pos 5000000000) ∷ before)

  -- Two states between which this many errors of SQS were counted, each followed by a wait.
  pub record Balanced (errors : ℕ) (s t : State) : Type 0 where
    pub events_total : t.metrics.events_total ≡ s.metrics.events_total
    pub counted : t.metrics.sqs_poll_errors ≡ s.metrics.sqs_poll_errors + errors
    pub waited : select_calls is_wait t.trace ≡ pauses errors (select_calls is_wait s.trace)

  record Quiet (s t : State) : Type 0 where
    metrics : t.metrics ≡ s.metrics
    waits : select_calls is_wait t.trace ≡ select_calls is_wait s.trace

  process_message-Quiet : (m : Message) (s : State) → Quiet s (process_message env cfg m s).1
  unfolding process_message send
  process_message-Quiet m s = ground arith

  process_all-Quiet : (ms : List Message) (s : State) → Quiet s (process_all env cfg ms s).1
  unfolding process_all delete
  process_all-Quiet [] s = ground arith
  process_all-Quiet (m ∷ ms) s = ground (
    arith,
    process_message-Quiet m s,
    process_all-Quiet ms (process_message env cfg m s).1,
    process_all-Quiet ms (delete env cfg m (process_message env cfg m s).1).1,
  )

  -- What a round adds, by the answer of ReceiveMessage.
  round-Balanced :
      {s t : State} (answer : Result (List Message)) (n : ℕ)
      → env.on_receive_message s.trace (receive_input env cfg) ≡ answer
      → Balanced n (after_poll env cfg (poll_once env cfg s).0 (poll_once env cfg s).1).1 t
      → Balanced (add_failure answer n) s t
  unfolding poll_once after_receive after_poll
  round-Balanced {s} (ok ms) n h rest =
      let q =
        process_all-Quiet ms
          (record s { trace = receive_message (receive_input env cfg) ∷ s.trace }) in
      let later = rw h at rest in
      record {
        events_total = later.events_total ∙ ap (λ m. m.events_total) q.metrics;
        counted = omega (arith, later.counted, ap (λ m. m.sqs_poll_errors) q.metrics);
        waited = rw (← q.waits) later.waited;
      }
  round-Balanced {s} (err e) n h rest =
      let later = rw h at rest in
      record {
        events_total = later.events_total;
        counted = omega (arith, later.counted);
        waited = later.waited;
      }

  -- Over any rounds of the polling loop, the counter of SQS errors grows by one for every round in
  -- which ReceiveMessage returned an error, each of these rounds waits once, for five seconds, and
  -- nothing else waits; the counter of processed events is left alone.
  pub Rounds-Balanced : {s t : State} (rounds : Rounds s t) → Balanced (failures rounds) s t
  Rounds-Balanced now = record { events_total = refl; counted = omega arith; waited = refl }
  Rounds-Balanced (round {s} p rest) =
      round-Balanced (env.on_receive_message s.trace (receive_input env cfg)) (failures rest) refl
        (Rounds-Balanced rest)
