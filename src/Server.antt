-- ===== src/Server.antt =====
-- internal/server/grpc.go and startHTTPServer of cmd/reservation-worker/main.go.
mod Grpc
mod Http
mod Tests
unfoldable pub use Grpc.*
unfoldable pub use Http.*
