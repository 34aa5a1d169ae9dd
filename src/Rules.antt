-- ===== src/Rules.antt =====
-- pkg/server/gameRules.go, and `RulesFromJSON` of pkg/server/matchmaker.go.
mod Defs
pub mod Checks
unfoldable pub use Defs.*
