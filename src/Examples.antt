-- ===== src/Examples.antt =====
-- Small inputs: tests of the definitions, and the theorems at inputs that meet their hypotheses.
mod Data
mod Rules
mod Matching
mod Backfill
mod Parties
mod Convert
mod Service
pub mod Streams
mod Start
mod Calls
pub mod BackfillStream
mod BackfillCalls
mod BackfillRuns
pub mod Common
