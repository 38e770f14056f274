-- ===== src/Client/Tests.antt =====
-- The theorems about the reservation client at an answer of the API.
use reservation_worker.Base.{◌≡◌, ◌≢◌, ◌⊎◌, ◌↔◌, none, ◌∷◌}
use reservation_worker.Runtime.{http_do}
use reservation_worker.Client.Defs.{UpdateStatusRequest, update_reservation_status}
use reservation_worker.Client.Laws.{expected_patch, Accepted, update_reservation_status_lem}
use reservation_worker.Samples.{broken, fresh}

abbrev confirm : UpdateStatusRequest
confirm = record { reservation_id = "rsv_1"; status = "CONFIRMED"; order_id = "" }

update_reservation_status_lem_example :
    let request = expected_patch broken "http://api" confirm in
    let (e, t) = update_reservation_status broken "http://api" confirm fresh in
    ((broken.on_new_request request.url ≢ none) × (e ≢ none) × (t ≡ fresh))
    ⊎ ((broken.on_new_request request.url ≡ none)
        × (t ≡ record fresh { trace = http_do request ∷ fresh.trace })
        × ((e ≡ none) ↔ Accepted (broken.on_http_do fresh.trace request)))
update_reservation_status_lem_example =
    update_reservation_status_lem broken "http://api" confirm fresh
