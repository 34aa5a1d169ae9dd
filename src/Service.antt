-- ===== src/Service.antt =====
-- The handlers of pkg/server/matchFunctionService.go.
mod Unary
mod Streams
pub mod Call
pub mod Tickets
pub mod Matches
pub mod MatchStream
pub mod BackfillStream
unfoldable pub use Unary.*
unfoldable pub use Streams.*
