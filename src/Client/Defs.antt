-- ===== src/Client/Defs.antt =====
-- internal/client/inventory.go and internal/client/reservation.go.
use reservation_worker.Base.{
  ℕ, String, Bool, ◌==◌, ◌||◌, not, Option, none, some, Error, wrapped, unexpected_status_code,
  Result, ok, err, ltb, leb, if◌then◌else◌,
}
use Prim.Native.String.{◌++◌}
use reservation_worker.Json.{str, obj, field, end, Fields, unmarshal}
use reservation_worker.Client.Details.{set_details, ReservationDetails, zero_details}
use reservation_worker.Runtime.{
  ReleaseHoldRequest, CommitReservationRequest, HttpRequest, HttpResponse, release_hold,
  commit_reservation, http_do, Env, M, ◌>>=◌, return, ask,
}

abbrev pub status_hold : String
status_hold = "HOLD"

abbrev pub status_confirmed : String
status_confirmed = "CONFIRMED"

abbrev pub status_cancelled : String
status_cancelled = "CANCELLED"

abbrev pub status_expired : String
status_expired = "EXPIRED"

pub record UpdateStatusRequest : Type 0 where
  pub reservation_id : String
  pub status : String
  pub order_id : String

-- 250 * time.Millisecond
abbrev pub grpc_timeout_ms : ℕ
grpc_timeout_ms = 250

-- The error of a call with the text that the client puts in front.
abbrev pub wrap_error : String → Option Error → Option Error
wrap_error context none = none
wrap_error context (some e) = some (wrapped context e)

-- http.StatusOK and the others from 200 to 299.
unfoldable pub is_success : ℕ → Bool
is_success code = not (ltb code 200 || leb 300 code)

-- json.Marshal of the payload, a map, which it writes with its keys in order.
abbrev pub payload : UpdateStatusRequest → Fields
payload r =
    let status_field = field "status" (str r.status) end in
    if not (r.order_id == "") then field "order_id" (str r.order_id) status_field else status_field

-- The connection is named by a number; the stub that is made of it holds nothing else.
pub record InventoryClient : Type 0 where
  pub conn : ℕ

-- NewInventoryClient. `connect` is grpc.NewClient.
unfoldable pub new_inventory_client : (String → Result ℕ) → String → Result InventoryClient
new_inventory_client connect addr = elim (connect addr) [
  | err e ↦ err (wrapped "failed to connect to inventory service" e)
  | ok conn ↦ ok (record { conn = conn })
]

-- InventoryClient.Close. `close` is the connection's.
abbrev pub close_inventory_client : (ℕ → Option Error) → InventoryClient → Option Error
close_inventory_client close c = close c.conn

-- The timeout is one of time.Duration, in nanoseconds.
pub record ReservationClient : Type 0 where
  pub base_url : String
  pub timeout : ℕ

-- NewReservationClient
abbrev pub new_reservation_client : String → ReservationClient
new_reservation_client base_url = record { base_url = base_url; timeout = 30000000000 }

module _ (env : Env) where
  -- InventoryClient.ReleaseHold
  unfoldable pub client_release_hold : ReleaseHoldRequest → M (Option Error)
  client_release_hold r = do
    e ← ask (release_hold grpc_timeout_ms r) (λ past. env.on_release_hold past r)
    return (wrap_error "failed to release hold" e)

  -- InventoryClient.CommitReservation
  unfoldable pub client_commit_reservation : CommitReservationRequest → M (Option Error)
  client_commit_reservation r = do
    e ← ask (commit_reservation grpc_timeout_ms r) (λ past. env.on_commit_reservation past r)
    return (wrap_error "failed to commit reservation" e)

  module _ (base_url : String) where
    abbrev pub reservation_url : String → String
    reservation_url id = base_url ++ "/internal/reservations/" ++ id

    abbrev pub patch_request : UpdateStatusRequest → HttpRequest
    patch_request r = record {
      method = "PATCH";
      url = reservation_url r.reservation_id;
      content_type = some "application/json";
      body = some (obj (payload r));
    }

    -- The answer of the reservation API, as UpdateReservationStatus reads it.
    unfoldable pub status_result : Result HttpResponse → Option Error
    status_result (err e) = some (wrapped "failed to execute request" e)
    status_result (ok resp) =
        if is_success resp.status_code
        then none
        else some (unexpected_status_code resp.status_code resp.body)

    -- ReservationClient.UpdateReservationStatus
    unfoldable pub update_reservation_status : UpdateStatusRequest → M (Option Error)
    update_reservation_status r =
        let request = patch_request r in
        elim (env.on_new_request request.url) [
          | some e ↦ return (some (wrapped "failed to create request" e))
          | none ↦ do
            answer ← ask (http_do request) (λ past. env.on_http_do past request)
            return (status_result answer)
        ]

    abbrev pub get_request : String → HttpRequest
    get_request id = record {
      method = "GET";
      url = reservation_url id;
      content_type = none;
      body = none;
    }

    -- The answer of the reservation API, as GetReservation reads it.
    unfoldable pub details_result : Result HttpResponse → Result ReservationDetails
    details_result (err e) = err (wrapped "failed to execute request" e)
    details_result (ok resp) =
        if is_success resp.status_code
        then elim (unmarshal (set_details env.is_time) resp.document zero_details) [
          | err e ↦ err (wrapped "failed to decode response" e)
          | ok d ↦ ok d
        ]
        else err (unexpected_status_code resp.status_code resp.body)

    -- ReservationClient.GetReservation
    unfoldable pub get_reservation : String → M (Result ReservationDetails)
    get_reservation id =
        let request = get_request id in
        elim (env.on_new_request request.url) [
          | some e ↦ return (err (wrapped "failed to create request" e))
          | none ↦ do
            answer ← ask (http_do request) (λ past. env.on_http_do past request)
            return (details_result answer)
        ]
