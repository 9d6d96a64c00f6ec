-- ===== src/HandlerCreate.antt =====
-- handlerCreate.go: the URL that starts a storage operation, from the form of the request.
mod Pairs
mod Form
pub mod Started
pub mod Keys
unfoldable pub use Pairs.*
unfoldable pub use Form.*
