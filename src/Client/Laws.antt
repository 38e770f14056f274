-- ===== src/Client/Laws.antt =====
-- UpdateReservationStatus and GetReservation of internal/client/reservation.go: what they send and
-- when they succeed.
use reservation_worker.Base.{
  ℕ, ◌≤◌, ◌<◌, String, true, none, Result, ok, err, ◌≡◌, ◌≢◌, ◌⊎◌, ◌↔◌, inl, inr, refl, arith,
  Bool-cases, Option-cases, ◌∷◌, ◌==◌, some, if◌then◌else◌,
}
use reservation_worker.Runtime.{HttpRequest, HttpResponse, http_do, Env, State}
use reservation_worker.Client.Defs.{
  UpdateStatusRequest, is_success, status_result, patch_request, update_reservation_status,
  details_result, get_request, get_reservation,
}
use reservation_worker.Client.Details.{ReservationDetails, zero_details, set_details}
use reservation_worker.Json.{str, obj, field, end, unmarshal}
use Prim.Native.String.{◌++◌}

pub is_success_lem : (code : ℕ) → (is_success code ≡ true) ↔ ((200 ≤ code) × (code < 300))
unfolding is_success
is_success_lem code = (λ h. ground arith, λ h. ground arith)

-- An answer of the API with a status from 200 to 299.
abbrev pub Accepted : Result HttpResponse → Type 0
Accepted answer =
    (resp : HttpResponse) × (answer ≡ ok resp) × (200 ≤ resp.status_code) × (resp.status_code < 300)

module _ (env : Env) (base_url : String) where
  status_result-none :
      (answer : Result HttpResponse) → (status_result env base_url answer ≡ none) ↔ Accepted answer
  unfolding status_result
  status_result-none (err e) = (λ h. absurd (cc), λ h. absurd (cc (h.1)))
  status_result-none (ok resp) = elim (Bool-cases (is_success resp.status_code)) [
    | inl good ↦ rw good (
      λ _.
          let bounds = (is_success_lem resp.status_code).0 good in (resp, refl, bounds.0, bounds.1),
      λ _. refl,
    )
    | inr bad ↦
        rw bad (λ h. absurd (cc), λ h. cc ((is_success_lem h.0.status_code).1 (h.2, h.3), h.1))
  ]

  -- The PATCH of the reservation's resource, with the status and, if there is one, the order's id.
  abbrev pub expected_patch : UpdateStatusRequest → HttpRequest
  expected_patch r = record {
    method = "PATCH";
    url = base_url ++ "/internal/reservations/" ++ r.reservation_id;
    content_type = some "application/json";
    body = some (
        obj (
          if r.order_id == ""
          then field "status" (str r.status) end
          else field "order_id" (str r.order_id) (field "status" (str r.status) end)));
  }

  pub patch_request-expected_patch :
      (r : UpdateStatusRequest) → patch_request env base_url r ≡ expected_patch r
  patch_request-expected_patch r = ground arith

  -- An update of a reservation's status sends one request, the PATCH of that reservation with the status
  -- and the order's id, or, exactly if that request cannot be made, nothing, and then it reports an
  -- error; once sent, it reports success exactly when the API answered with a status from 200 to 299.
  pub update_reservation_status_lem :
      (r : UpdateStatusRequest) (s : State)
      → let request = expected_patch r in
        let (e, t) = update_reservation_status env base_url r s in
        ((env.on_new_request request.url ≢ none) × (e ≢ none) × (t ≡ s))
        ⊎ ((env.on_new_request request.url ≡ none)
            × (t ≡ record s { trace = http_do request ∷ s.trace })
            × ((e ≡ none) ↔ Accepted (env.on_http_do s.trace request)))
  unfolding update_reservation_status
  update_reservation_status_lem r s =
      let request = patch_request env base_url r in
      rw (← patch_request-expected_patch r) (elim (Option-cases (env.on_new_request request.url)) [
        | inl made ↦ inr (
            rw (made, update_reservation_status)
              (refl, refl, status_result-none (env.on_http_do s.trace request)))
        | inr (e, refused) ↦ inl (
          ground arith,
          rw (refused, update_reservation_status) (λ h. absurd (cc)),
          rw (refused, update_reservation_status) refl,
        )
      ])

  -- An answer with a status from 200 to 299 and a document that gives these details.
  abbrev pub Found : Result HttpResponse → ReservationDetails → Type 0
  Found answer d =
      (resp : HttpResponse) × (answer ≡ ok resp)
      × (200 ≤ resp.status_code)
      × (resp.status_code < 300)
      × (unmarshal (set_details env.is_time) resp.document zero_details ≡ ok d)

  details_result-ok :
      (answer : Result HttpResponse) (d : ReservationDetails)
      → (details_result env base_url answer ≡ ok d) ↔ Found answer d
  unfolding details_result
  details_result-ok (err e) d = (λ h. absurd (cc), λ h. absurd (cc (h.1)))
  details_result-ok (ok resp) d = elim (Bool-cases (is_success resp.status_code)) [
    | inl good ↦
        let bounds = (is_success_lem resp.status_code).0 good in
        rw good (λ h. (resp, refl, bounds.0, bounds.1, ground arith), λ h. ground arith)
    | inr bad ↦
        rw bad
          (λ h. absurd (cc), λ h. absurd (cc ((is_success_lem h.0.status_code).1 (h.2, h.3), h.1)))
  ]

  -- A query of a reservation sends one GET, or none if the request cannot be made; it returns details
  -- exactly when the API answered with a status from 200 to 299 and a document that gives them.
  pub get_reservation_lem :
      (id : String) (s : State) (d : ReservationDetails)
      → let request = get_request env base_url id in
        let (result, t) = get_reservation env base_url id s in
        ((env.on_new_request request.url ≢ none) × (result ≢ ok d) × (t ≡ s))
        ⊎ ((env.on_new_request request.url ≡ none)
            × (t ≡ record s { trace = http_do request ∷ s.trace })
            × ((result ≡ ok d) ↔ Found (env.on_http_do s.trace request) d))
  unfolding get_reservation
  get_reservation_lem id s d =
      let request = get_request env base_url id in
      elim (Option-cases (env.on_new_request request.url)) [
        | inl made ↦ inr (
            rw (made, get_reservation)
              (refl, refl, details_result-ok (env.on_http_do s.trace request) d))
        | inr (e, refused) ↦ inl (
          ground arith,
          rw (refused, get_reservation) (λ h. absurd (cc)),
          rw (refused, get_reservation) refl,
        )
      ]
