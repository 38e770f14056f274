-- ===== src/Handler/Order.antt =====
-- The downstream calls of internal/handler/expired.go, approved.go and failed.go, in their order.
use reservation_worker.Base.{
  String, Bool, true, false, none, List, [], ◌∷◌, inl, inr, eq_iff, ◌≡◌, ◌≢◌, ◌⊎◌, ◌↔◌, arith,
  if◌then◌else◌,
}
use reservation_worker.Event.{ReservationExpiredDetail, PaymentApprovedDetail, PaymentFailedDetail}
use reservation_worker.Client.{
  grpc_timeout_ms, client_release_hold, client_commit_reservation, update_reservation_status,
  patch_request,
}
use reservation_worker.Runtime.{
  set_attributes, Call, release_hold, commit_reservation, http_do, start_span, Env, State,
}
use reservation_worker.Handler.Outcomes.{select_calls}
use reservation_worker.Handler.Finish.{open_span, has_seats}
use reservation_worker.Handler.Expired.{
  attributes_of_expired, release_of_expired, status_of_expired, process_expired,
}
use reservation_worker.Handler.Approved.{
  attributes_of_approved, status_of_approved, commit_of_approved, process_approved,
}
use reservation_worker.Handler.Failed.{
  attributes_of_failed, status_of_failed, release_of_failed, process_failed,
}

abbrev pub is_downstream : Call → Bool
is_downstream (release_hold _ _) = true
is_downstream (commit_reservation _ _) = true
is_downstream (http_do _) = true
is_downstream _ = false

abbrev pub downstream : State → List Call
downstream s = select_calls is_downstream s.trace

-- A detail has seats if it names an event and at least one seat.
pub has_seats-cases :
    (event_id : String) (seat_ids : List String)
    → ((has_seats event_id seat_ids ≡ true) × (event_id ≢ "") × (seat_ids ≢ []))
      ⊎ ((has_seats event_id seat_ids ≡ false) × ((event_id ≡ "") ⊎ (seat_ids ≡ [])))
unfolding has_seats
has_seats-cases event_id [] = ground (arith, eq_iff event_id "")
has_seats-cases event_id (x ∷ xs) = ground (arith, eq_iff event_id "")

module _ (env : Env) (base_url : String) where
  -- An expired reservation is marked EXPIRED only after its hold was released: the PATCH is sent
  -- only behind a ReleaseHold that succeeded, and without an error both were sent, in this order.
  pub process_expired-order :
      (d : ReservationExpiredDetail) (s : State)
      → let release = release_hold grpc_timeout_ms (release_of_expired d) in
        let patch = http_do (patch_request env base_url (status_of_expired d)) in
        let answer =
          env.on_release_hold
            (set_attributes (attributes_of_expired d)
              ∷ start_span "handle_reservation_expired"
              ∷ s.trace)
            (release_of_expired d) in
        let (r, t) = process_expired env base_url d s in
        ((downstream t ≡ release ∷ downstream s) × (r ≢ none))
        ⊎ ((downstream t ≡ patch ∷ release ∷ downstream s) × (answer ≡ none))
  unfolding process_expired client_release_hold update_reservation_status
  process_expired-order d s = ground arith

  pub process_approved-has_seats :
      (d : PaymentApprovedDetail) (s : State)
      → let commit = commit_reservation grpc_timeout_ms (commit_of_approved d) in
        let s' = (open_span "handle_payment_approved" (attributes_of_approved d) s).1 in
        let (confirmed, u) = update_reservation_status env base_url (status_of_approved d) s' in
        let (r, t) = process_approved env base_url d s in
        ((confirmed ≡ none)
          × (r ≡ none)
          × (downstream t
              ≡ (if has_seats d.event_id d.seat_ids then commit ∷ downstream u else downstream u)))
        ⊎ ((confirmed ≢ none) × (r ≢ none) × (downstream t ≡ downstream u))
  unfolding process_approved client_commit_reservation
  process_approved-has_seats d s = ground arith

  -- An approved payment succeeds exactly when its reservation could be marked CONFIRMED. Its seats are
  -- committed then and only then, behind the PATCH, and only if the detail names an event and at least
  -- one seat; the answer is ignored.
  pub process_approved-order :
      (d : PaymentApprovedDetail) (s : State)
      → let commit = commit_reservation grpc_timeout_ms (commit_of_approved d) in
        let s' = (open_span "handle_payment_approved" (attributes_of_approved d) s).1 in
        let (confirmed, u) = update_reservation_status env base_url (status_of_approved d) s' in
        let (r, t) = process_approved env base_url d s in
        ((confirmed ≡ none)
          × (r ≡ none)
          × (d.event_id ≢ "")
          × (d.seat_ids ≢ [])
          × (downstream t ≡ commit ∷ downstream u))
        ⊎ ((confirmed ≡ none)
            × (r ≡ none)
            × ((d.event_id ≡ "") ⊎ (d.seat_ids ≡ []))
            × (downstream t ≡ downstream u))
        ⊎ ((confirmed ≢ none) × (r ≢ none) × (downstream t ≡ downstream u))
  process_approved-order d s = elim (process_approved-has_seats d s) [
    | inr refused ↦ inr (inr refused)
    | inl (confirmed, ok, sent) ↦ elim (has_seats-cases d.event_id d.seat_ids) [
      | inl (guard, named, seated) ↦ inl (confirmed, ok, named, seated, rw guard at sent)
      | inr (guard, missing) ↦ inr (inl (confirmed, ok, missing, rw guard at sent))
    ]
  ]

  pub process_failed-has_seats :
      (d : PaymentFailedDetail) (s : State)
      → let release = release_hold grpc_timeout_ms (release_of_failed d) in
        let s' = (open_span "handle_payment_failed" (attributes_of_failed d) s).1 in
        let (cancelled, u) = update_reservation_status env base_url (status_of_failed d) s' in
        let (r, t) = process_failed env base_url d s in
        ((cancelled ≡ none)
          × (has_seats d.event_id d.seat_ids ≡ true)
          × (downstream t ≡ release ∷ downstream u)
          × ((r ≡ none) ↔ (env.on_release_hold u.trace (release_of_failed d) ≡ none)))
        ⊎ ((cancelled ≡ none)
            × (has_seats d.event_id d.seat_ids ≡ false)
            × (r ≡ none)
            × (downstream t ≡ downstream u))
        ⊎ ((cancelled ≢ none) × (r ≢ none) × (downstream t ≡ downstream u))
  unfolding process_failed client_release_hold
  process_failed-has_seats d s = ground arith
