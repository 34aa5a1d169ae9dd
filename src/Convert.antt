-- ===== src/Convert.antt =====
-- pkg/pb/conversions.go: between the messages of the protocol and those of the matchmaker.
pub mod Json
pub mod Plain
pub mod Whole
mod FromProto
mod ToProto
pub mod RoundTrip
pub mod Parties
unfoldable pub use Json.*
unfoldable pub use FromProto.*
unfoldable pub use ToProto.*
pub mod Backfill
