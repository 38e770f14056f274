-- ===== src/Config/Parse.antt =====
-- strconv.Atoi and strconv.ParseBool, on the code points of the text.
mod Defs
pub mod Laws
unfoldable pub use Defs.*
