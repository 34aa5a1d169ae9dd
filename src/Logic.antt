-- ===== src/Logic.antt =====
-- The interface `MatchLogic` of pkg/server/interfaces.go and `MatchMaker`, which implements it.
mod Defs
unfoldable pub use Defs.*
