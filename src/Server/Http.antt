-- ===== src/Server/Http.antt =====
-- startHTTPServer of cmd/reservation-worker/main.go: the endpoints and the address.
use reservation_worker.Base.{ℕ, String, List, [], ◌∷◌}
use Prim.Native.String.{◌++◌}

-- What an endpoint answers with: a status and a body, or the page of the Prometheus library.
pub data Answer : Type 0 where
  status_and_body : ℕ → String → Answer
  prometheus_page : Answer

-- The handlers in the order of their registration. Matching a path with the patterns is the mux's.
abbrev pub endpoints : List (String × Answer)
endpoints =
    ("/health", status_and_body 200 "OK")
    ∷ ("/ready", status_and_body 200 "READY")
    ∷ ("/metrics", prometheus_page)
    ∷ []

abbrev pub http_addr : String → String
http_addr port = ":" ++ port
