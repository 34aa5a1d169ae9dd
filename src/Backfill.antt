-- ===== src/Backfill.antt =====
-- `buildBackfillMatch` and `BackfillMatches` of pkg/server/matchmaker.go.
mod Defs
pub mod Rounds
pub mod Walk
pub mod Endings
mod LastPair
pub mod Remaining
pub mod Loop
pub mod Pairs
pub mod Once
pub mod Allowed
unfoldable pub use Defs.*
