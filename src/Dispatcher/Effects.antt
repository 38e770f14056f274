-- ===== src/Dispatcher/Effects.antt =====
-- What HandleEvent of internal/worker/dispatcher.go sends to the inventory and the reservation API.
use reservation_worker.Base.{
  ℕ, suc, ◌+◌, ◌-◌, ◌≤◌, Option, none, some, Error, ok, List, ◌++◌, ◌≡◌, ◌⊎◌, inl, inr, refl, arith,
  pos, pos_part, ◌≤ℤ◌, String,
}
use reservation_worker.Event.{Event, Detail, expired, approved, failed, parse_event_detail}
use reservation_worker.Event.Laws.{kind_of_detail, parse_event_detail-kind}
use reservation_worker.Config.{Config}
use reservation_worker.Runtime.{Call, Env, State, M}
use reservation_worker.Handler.{handle_expired, handle_approved, handle_failed}
use reservation_worker.Handler.Kinds.{handle, process}
use reservation_worker.Handler.Order.{downstream}
use reservation_worker.Handler.Calls.{AttemptCalls, process-AttemptCalls}
use reservation_worker.Dispatcher.Defs.{handle_event}
use reservation_worker.Dispatcher.Runs.{Tries, ended_well, gave_up, tried_again}
use reservation_worker.Dispatcher.Verdict.{enough_fuel, worker_call-Ends}

-- `Sends r after retries before`: behind the calls `before`, attempts with this detail, `retries` of
-- which fail and are followed by another, send what leads to `after`, and the last returns `r`.
pub data Sends (env : Env) (base_url : String) (d : Detail) (r : Option Error) (after : List Call)
    : ℕ → List Call → Type 0 where
  last_attempt :
      {before : List Call} (calls : List Call)
      → AttemptCalls env base_url d r calls
      → after ≡ calls ++ before
      → Sends env base_url d r after 0 before
  failed_attempt :
      {before : List Call} {n : ℕ} (e : Error) (calls : List Call)
      → AttemptCalls env base_url d (some e) calls
      → Sends env base_url d r after n (calls ++ before)
      → Sends env base_url d r after (suc n) before

-- Handle of the handler for a detail's kind, on an event that has the detail.
pub handle-process :
    (env : Env) (base_url : String) (event : Event) (d : Detail) (s : State)
    → parse_event_detail event ≡ ok d
    → handle env base_url (kind_of_detail d) event s ≡ process env base_url d s
unfolding handle_expired handle_approved handle_failed
handle-process env base_url event (expired d) s h = ground arith
handle-process env base_url event (approved d) s h = ground arith
handle-process env base_url event (failed d) s h = ground arith

module _ (env : Env) (cfg : Config) (event : Event) (d : Detail)
    (parsed : parse_event_detail event ≡ ok d) where
  abbrev handler : M (Option Error)
  handler = handle env cfg.reservation_api_base (kind_of_detail d) event

  -- An attempt of HandleEvent sends what one with its detail sends.
  handle-AttemptCalls :
      (s : State)
      → (calls : List Call) × AttemptCalls env cfg.reservation_api_base d (handler s).0 calls
        × (downstream (handler s).1 ≡ calls ++ downstream s)
  handle-AttemptCalls s =
      rw (handle-process env cfg.reservation_api_base event d s parsed)
        (process-AttemptCalls env cfg.reservation_api_base d s)

  Tries-Sends :
      {r : Option Error} {t : State} {attempt : ℕ} {s : State}
      → Tries cfg event.event_type handler r t attempt s
      → (retries : ℕ) × ((retries ≡ 0) ⊎ (pos (attempt + retries) ≤ℤ cfg.max_retries))
        × ((r ≡ none) ⊎ (cfg.max_retries ≤ℤ pos (attempt + retries)))
        × Sends env cfg.reservation_api_base d r (downstream t) retries (downstream s)
  Tries-Sends {s} (ended_well answer is now) =
      let (calls, shape, sent) = handle-AttemptCalls s in
      (0, inl refl, inl is, last_attempt calls (rw is (rw answer at shape)) (rw now sent))
  Tries-Sends {s} (gave_up e answer over is now) =
      let (calls, shape, sent) = handle-AttemptCalls s in
      (
        0,
        inl refl,
        inr (ground arith),
        last_attempt calls (rw is (rw answer at shape)) (rw now sent),
      )
  Tries-Sends {s} (tried_again e answer more rest) =
      let (calls, shape, sent) = handle-AttemptCalls s in
      let (retries, within, over, sends) = Tries-Sends rest in
      (
        suc retries,
        inr (ground arith),
        ground arith,
        failed_attempt e calls (rw answer at shape) (rw sent at sends),
      )

  -- For an event whose detail can be parsed, a worker's call sends downstream only what its attempts
  -- send, in their order: an attempt that fails a beginning of the calls of its detail, or all of them,
  -- and one that returns no error, which is then the last, all of them. There are fewer retries than max_retries,
  -- and exactly one fewer (none if max_retries is less than one) if the call returns an error.
  pub worker_call-Sends :
      (s : State)
      → let (result, t) = handle_event env cfg (enough_fuel env cfg) event 1 s in
        (r : Option Error) × (retries : ℕ) × (result ≡ some r)
        × (retries ≤ pos_part cfg.max_retries - 1)
        × ((r ≡ none) ⊎ (retries ≡ pos_part cfg.max_retries - 1))
        × Sends env cfg.reservation_api_base d r (downstream t) retries (downstream s)
  worker_call-Sends s =
      let run = worker_call-Ends env cfg event s (parse_event_detail-kind event parsed) in
      let (retries, within, over, sends) = Tries-Sends run.tries in
      (run.result, retries, run.returned, ground arith, ground arith, sends)
