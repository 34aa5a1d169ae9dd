-- ===== src/Service/MatchStream.antt =====
-- `MakeMatches` of pkg/server/matchFunctionService.go, once its goroutines run.
mod Defs
mod Process
pub mod Responses
pub mod Panics
pub mod Call
unfoldable pub use Defs.*
