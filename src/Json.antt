-- ===== src/Json.antt =====
-- encoding/json, as far as the program uses it: a document is the value that its text spells.
-- json.Unmarshal into the structs of internal/handler/event.go, internal/client/reservation.go and
-- internal/config/secrets.go goes key by key through the functions below.
mod Defs
pub mod Laws
unfoldable pub use Defs.*
