-- ===== src/Parties.antt =====
-- `PlayerDataToParties` of pkg/pb/conversions.go.
mod Defs
pub mod Grouping
unfoldable pub use Defs.*
