-- ===== src/Service/BackfillStream.antt =====
-- `BackfillMatches` of pkg/server/matchFunctionService.go, once its goroutines run.
mod Defs
mod Process
mod Survival
pub mod Panics
pub mod Responses
pub mod Exact
pub mod Call
pub mod Returns
mod Allowed
pub mod Added
unfoldable pub use Defs.*
