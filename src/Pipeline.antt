-- ===== src/Pipeline.antt =====
-- The goroutines of a stream handler of pkg/server/matchFunctionService.go.
mod Defs
pub mod Standing
mod Runs
pub mod Refinement
pub mod Bounds
pub mod Progress
pub mod Failure
pub mod Panics
unfoldable pub use Defs.*
