-- ===== src/Dispatcher/Defs.antt =====
-- HandleEvent of internal/worker/dispatcher.go.
use reservation_worker.Base.{
  ℕ, zero, suc, String, ◌==◌, ◌||◌, Option, none, some, Error, unknown_event_type, pos, leb_ℤ,
  if◌then◌else◌,
}
use reservation_worker.Event.{
  Event, event_type_reservation_expired, event_type_reservation_hold_expired,
  event_type_payment_approved, event_type_payment_failed,
}
use reservation_worker.Metrics.{
  outcome_success, outcome_retried, outcome_failed, outcome_invalid_payload, record_event_processed,
  record_event_latency,
}
use reservation_worker.Config.{Config, get_backoff_duration}
use reservation_worker.Runtime.{sleep, Env, M, ◌>>◌, return, act, observe}
use reservation_worker.Handler.{handle_expired, handle_approved, handle_failed}

module _ (env : Env) (cfg : Config) where
  -- The `switch` on the type of the event; `none` is its default.
  unfoldable pub route : Event → Option (M (Option Error))
  route event =
      let base_url = cfg.reservation_api_base in
      if event.event_type == event_type_reservation_expired
        || event.event_type == event_type_reservation_hold_expired
      then some (handle_expired env base_url event)
      else if event.event_type == event_type_payment_approved
      then some (handle_approved env base_url event)
      else if event.event_type == event_type_payment_failed
      then some (handle_failed env base_url event)
      else none

  -- What follows an attempt; `again` is the recursive call. A result `none` is used by `again` alone.
  unfoldable pub after_attempt :
      String → ℕ → M (Option (Option Error)) → Option Error → M (Option (Option Error))
  after_attempt event_type attempt again none = do
    observe (record_event_processed event_type outcome_success)
    observe (record_event_latency event_type)
    return (some none)
  after_attempt event_type attempt again (some e) =
      if leb_ℤ cfg.max_retries (pos attempt)
      then (do
        observe (record_event_processed event_type outcome_failed)
        observe (record_event_latency event_type)
        return (some (some e)))
      else do
        observe (record_event_processed event_type outcome_retried)
        act (sleep (get_backoff_duration cfg attempt))
        again

  unfoldable pub reject_unknown : String → M (Option (Option Error))
  reject_unknown event_type = do
    observe (record_event_processed event_type outcome_invalid_payload)
    return (some (some (unknown_event_type event_type)))

  -- Dispatcher.HandleEvent with fuel for its recursion: `none` means that the fuel ran out.
  unfoldable pub handle_event : ℕ → Event → ℕ → M (Option (Option Error))
  unfolding after_attempt reject_unknown
  handle_event zero event attempt s = (none, s)
  handle_event (suc fuel) event attempt s =
      let again = handle_event fuel event (suc attempt) in
      elim (route event) [
        | none ↦ reject_unknown event.event_type s
        | some handle ↦ let (e, t) = handle s in after_attempt event.event_type attempt again e t
      ]
