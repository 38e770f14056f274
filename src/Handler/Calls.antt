-- ===== src/Handler/Calls.antt =====
-- What one call of Handle of internal/handler sends downstream for a detail.
use reservation_worker.Base.{
  String, Option, none, Error, List, [], ◌∷◌, ◌++◌, ◌≡◌, ◌≢◌, ◌⊎◌, inl, inr, refl, arith,
  if◌then◌else◌,
}
use reservation_worker.Event.{
  Detail, expired, approved, failed, ReservationExpiredDetail, PaymentApprovedDetail,
  PaymentFailedDetail,
}
use reservation_worker.Client.{
  grpc_timeout_ms, update_reservation_status, patch_request, UpdateStatusRequest,
}
use reservation_worker.Client.Laws.{patch_request-expected_patch, update_reservation_status_lem}
use reservation_worker.Runtime.{Call, release_hold, commit_reservation, http_do, Env, State}
use reservation_worker.Handler.Kinds.{process}
use reservation_worker.Handler.Finish.{open_span, has_seats}
use reservation_worker.Handler.Expired.{release_of_expired, status_of_expired}
use reservation_worker.Handler.Approved.{
  attributes_of_approved, status_of_approved, commit_of_approved,
}
use reservation_worker.Handler.Failed.{attributes_of_failed, status_of_failed, release_of_failed}
use reservation_worker.Handler.Order.{
  downstream, process_expired-order, process_approved-has_seats, process_failed-has_seats,
}

module _ (env : Env) (base_url : String) where
  abbrev pub patch : UpdateStatusRequest → Call
  patch r = http_do (patch_request env base_url r)

  abbrev pub committed : PaymentApprovedDetail → List Call
  committed d =
      if has_seats d.event_id d.seat_ids
      then commit_reservation grpc_timeout_ms (commit_of_approved d) ∷ []
      else []

  abbrev pub released : PaymentFailedDetail → List Call
  released d =
      if has_seats d.event_id d.seat_ids
      then release_hold grpc_timeout_ms (release_of_failed d) ∷ []
      else []

  -- The downstream calls of one attempt that returns this, the last one first.
  abbrev pub AttemptCalls : Detail → Option Error → List Call → Type 0
  AttemptCalls (expired d) r calls =
      let release = release_hold grpc_timeout_ms (release_of_expired d) in
      ((r ≢ none) × (calls ≡ release ∷ [])) ⊎ (calls ≡ patch (status_of_expired d) ∷ release ∷ [])
  AttemptCalls (approved d) r calls =
      ((r ≢ none) × ((calls ≡ []) ⊎ (calls ≡ patch (status_of_approved d) ∷ [])))
      ⊎ ((r ≡ none) × (calls ≡ committed d ++ patch (status_of_approved d) ∷ []))
  AttemptCalls (failed d) r calls =
      ((r ≢ none) × ((calls ≡ []) ⊎ (calls ≡ patch (status_of_failed d) ∷ [])))
      ⊎ (calls ≡ released d ++ patch (status_of_failed d) ∷ [])

  -- An update that succeeds was sent.
  update-calls :
      (q : UpdateStatusRequest) (s : State)
      → let (r, t) = update_reservation_status env base_url q s in
        (downstream t ≡ patch q ∷ downstream s) ⊎ ((r ≢ none) × (downstream t ≡ downstream s))
  update-calls q s = elim (update_reservation_status_lem env base_url q s) [
    | inl (refused, e, same) ↦ inr (e, rw same refl)
    | inr (made, sent, answer) ↦ inl (rw (sent, ← patch_request-expected_patch env base_url q) refl)
  ]

  expired-calls :
      (d : ReservationExpiredDetail) (s : State)
      → let (r, t) = process env base_url (expired d) s in
        (calls : List Call) × AttemptCalls (expired d) r calls
        × (downstream t ≡ calls ++ downstream s)
  expired-calls d s = elim (process_expired-order env base_url d s) [
    | inl (only, e) ↦ (_, inl (e, refl), only)
    | inr (both, ok) ↦ (_, inr refl, both)
  ]

  approved-calls :
      (d : PaymentApprovedDetail) (s : State)
      → let (r, t) = process env base_url (approved d) s in
        (calls : List Call) × AttemptCalls (approved d) r calls
        × (downstream t ≡ calls ++ downstream s)
  approved-calls d s =
      let q = status_of_approved d in
      let s' = (open_span "handle_payment_approved" (attributes_of_approved d) s).1 in
      elim (process_approved-has_seats env base_url d s) [
        | inl (confirmed, ok, sent) ↦ elim (update-calls q s') [
          | inl patched ↦ (committed d ++ patch q ∷ [], inr (ok, refl), ground arith)
          | inr (e, _) ↦ absurd (e confirmed)
        ]
        | inr (refused, e, same) ↦ elim (update-calls q s') [
          | inl patched ↦ (patch q ∷ [], inl (e, inr refl), ground arith)
          | inr (_, unsent) ↦ ([], inl (e, inl refl), ground arith)
        ]
      ]

  failed-calls :
      (d : PaymentFailedDetail) (s : State)
      → let (r, t) = process env base_url (failed d) s in
        (calls : List Call) × AttemptCalls (failed d) r calls
        × (downstream t ≡ calls ++ downstream s)
  failed-calls d s =
      let q = status_of_failed d in
      let s' = (open_span "handle_payment_failed" (attributes_of_failed d) s).1 in
      elim (process_failed-has_seats env base_url d s) [
        | inl (cancelled, seats, sent, ok) ↦ elim (update-calls q s') [
          | inl patched ↦ (released d ++ patch q ∷ [], inr refl, ground arith)
          | inr (e, _) ↦ absurd (e cancelled)
        ]
        | inr (inl (cancelled, none_left, ok, same)) ↦ elim (update-calls q s') [
          | inl patched ↦ (released d ++ patch q ∷ [], inr refl, ground arith)
          | inr (e, _) ↦ absurd (e cancelled)
        ]
        | inr (inr (refused, e, same)) ↦ elim (update-calls q s') [
          | inl patched ↦ (patch q ∷ [], inl (e, inr refl), ground arith)
          | inr (_, unsent) ↦ ([], inl (e, inl refl), ground arith)
        ]
      ]

  -- What an attempt with this detail sends.
  pub process-AttemptCalls :
      (d : Detail) (s : State)
      → let (r, t) = process env base_url d s in
        (calls : List Call) × AttemptCalls d r calls × (downstream t ≡ calls ++ downstream s)
  process-AttemptCalls (expired d) s = expired-calls d s
  process-AttemptCalls (approved d) s = approved-calls d s
  process-AttemptCalls (failed d) s = failed-calls d s
