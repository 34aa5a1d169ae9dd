-- ===== src/Start.antt =====
-- What main.go sets up: the interceptors of calls, the token validator and the names it reads from
-- the environment.
mod Defs
pub mod Calls
pub mod Exit
pub mod Process
pub mod Ends
pub mod Returns
unfoldable pub use Defs.*
