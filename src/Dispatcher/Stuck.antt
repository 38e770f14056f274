-- ===== src/Dispatcher/Stuck.antt =====
-- HandleEvent of internal/worker/dispatcher.go for an expired reservation whose hold is released already.
use reservation_worker.Base.{
  ℕ, String, Bool, true, false, Option, none, some, Option-cases, Error, ok, List, [], ◌∷◌, ◌≡◌,
  ◌≢◌, ◌⊎◌, ◌∙◌, inl, inr, refl,
}
use reservation_worker.Event.{Event, expired, ReservationExpiredDetail, parse_event_detail}
use reservation_worker.Event.Laws.{parse_event_detail-kind}
use reservation_worker.Config.{Config}
use reservation_worker.Client.{client_release_hold}
use reservation_worker.Runtime.{
  Call, release_hold, ReleaseHoldRequest, http_do, set_attributes, start_span, Env, State, M,
}
use reservation_worker.Handler.{
  process_expired, handle_expired, fail_handler, attributes_of_expired, release_of_expired,
}
use reservation_worker.Handler.Outcomes.{select_calls}
use reservation_worker.Dispatcher.Defs.{handle_event}
use reservation_worker.Dispatcher.Runs.{Tries, ended_well, gave_up, tried_again}
use reservation_worker.Dispatcher.Verdict.{enough_fuel, worker_call-Ends}
use reservation_worker.Dispatcher.Effects.{handle-process}

abbrev pub is_http : Call → Bool
is_http (http_do _) = true
is_http _ = false

-- A release for this reservation was sent, and the inventory accepted it.
abbrev pub IsReleased : Env → String → List Call → Type 0
IsReleased env id [] = ⊥
IsReleased env id (release_hold timeout q ∷ past) =
    ((q.reservation_id ≡ id) × (env.on_release_hold past q ≡ none)) ⊎ IsReleased env id past
IsReleased env id (_ ∷ past) = IsReleased env id past

-- The inventory refuses a release for a reservation of which it has accepted one, as the README says of
-- its conditional write.
abbrev pub RefusesTwice : Env → Type 0
RefusesTwice env =
    (past : List Call) (q : ReleaseHoldRequest)
    → IsReleased env q.reservation_id past
    → env.on_release_hold past q ≢ none

module _ (env : Env) (cfg : Config) (refuses : RefusesTwice env) (event : Event)
    (d : ReservationExpiredDetail) (parsed : parse_event_detail event ≡ ok (expired d)) where
  abbrev attempt_of : M (Option Error)
  attempt_of = process_expired env cfg.reservation_api_base d

  -- An attempt behind the release is refused before its PATCH.
  attempt-IsReleased :
      (s : State)
      → IsReleased env d.reservation_id s.trace
      → ((attempt_of s).0 ≢ none)
        × (select_calls is_http (attempt_of s).1.trace ≡ select_calls is_http s.trace)
        × IsReleased env d.reservation_id (attempt_of s).1.trace
  unfolding process_expired client_release_hold fail_handler
  attempt-IsReleased s h =
      let past =
        set_attributes (attributes_of_expired d)
        ∷ start_span "handle_reservation_expired"
        ∷ s.trace in
      let refused = refuses past (release_of_expired d) h in
      elim (Option-cases (env.on_release_hold past (release_of_expired d))) [
        | inl granted ↦ absurd (refused granted)
        | inr (e, is) ↦
            rw (is, process_expired, client_release_hold, fail_handler)
              (λ p. absurd (cc), refl, inr h)
      ]

  handled-IsReleased :
      (s : State)
      → IsReleased env d.reservation_id s.trace
      → let (r, t) = handle_expired env cfg.reservation_api_base event s in
        (r ≢ none)
        × (select_calls is_http t.trace ≡ select_calls is_http s.trace)
        × IsReleased env d.reservation_id t.trace
  handled-IsReleased s h =
      rw (handle-process env cfg.reservation_api_base event (expired d) s parsed)
        (attempt-IsReleased s h)

  Tries-IsReleased :
      {r : Option Error} {t : State} {attempt : ℕ} {s : State}
      → IsReleased env d.reservation_id s.trace
      → Tries cfg event.event_type (handle_expired env cfg.reservation_api_base event) r t attempt s
      → (r ≢ none) × (select_calls is_http t.trace ≡ select_calls is_http s.trace)
  Tries-IsReleased {s} h (ended_well answer is now) = absurd ((handled-IsReleased s h).0 answer)
  Tries-IsReleased {s} h (gave_up e answer over is now) =
      let (_, quiet, _) = handled-IsReleased s h in (λ p. absurd (cc), rw now quiet)
  Tries-IsReleased {s} h (tried_again e answer more rest) =
      let (_, quiet, still) = handled-IsReleased s h in
      let (failed, silent) = Tries-IsReleased still rest in (failed, silent ∙ quiet)

  first-IsReleased :
      {r : Option Error} {t : State} {attempt : ℕ} (s : State) (p : Option Error × State)
      → handle_expired env cfg.reservation_api_base event s ≡ p
      → p.0 ≢ none
      → IsReleased env d.reservation_id p.1.trace
      → Tries cfg event.event_type (handle_expired env cfg.reservation_api_base event) r t attempt s
      → (r ≢ none) × (select_calls is_http t.trace ≡ select_calls is_http p.1.trace)
  first-IsReleased s p same failed h (ended_well answer is now) =
      absurd (failed (rw (← same) answer))
  first-IsReleased s p same failed h (gave_up e answer over is now) =
      (λ none_left. absurd (cc), rw (now, same) refl)
  first-IsReleased s p same failed h (tried_again e answer more rest) =
      let (error, silent) = Tries-IsReleased (rw same h) rest in (error, rw same at silent)

  -- If the inventory refuses to release a hold twice, and the first attempt of a worker's call for an
  -- expired reservation fails although the hold was released, by this attempt or before it, then the
  -- call returns an error, and no further attempt of it sends a PATCH.
  pub worker_call-IsReleased :
      (s : State)
      → let (r, u) = process_expired env cfg.reservation_api_base d s in
        let (result, t) = handle_event env cfg (enough_fuel env cfg) event 1 s in
        r ≢ none
        → IsReleased env d.reservation_id u.trace
        → (result ≢ some none) × (select_calls is_http t.trace ≡ select_calls is_http u.trace)
  worker_call-IsReleased s first h =
      let run = worker_call-Ends env cfg event s (parse_event_detail-kind event parsed) in
      let (error, silent) =
        first-IsReleased s (process_expired env cfg.reservation_api_base d s)
          (handle-process env cfg.reservation_api_base event (expired d) s parsed) first h
          run.tries in
      (λ p. error (cc (p, run.returned)), silent)
