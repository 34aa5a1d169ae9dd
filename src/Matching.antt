-- ===== src/Matching.antt =====
-- `buildMatch` and `MakeMatches` of pkg/server/matchmaker.go.
mod Defs
mod Groups
pub mod Limits
pub mod Build
pub mod Stream
pub mod Defects
pub mod Endings
pub mod Products
unfoldable pub use Defs.*
pub use Groups.*
