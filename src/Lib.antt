-- ===== src/Lib.antt =====
-- Verification of the matchmaking function plugin server: a gRPC service in Go with which a
-- game replaces the matchmaking of AccelByte. Its calls give stat codes for rules, validate and
-- enrich a ticket, and, over two streams, make matches from tickets and backfill proposals from
-- tickets and running sessions.
--
-- The parts, from the inside:
--
-- External and Value: what the code takes from other modules (github.com/elliotchance/pie,
-- structpb, timestamppb), as records of operations with their documented laws, and Go's
-- `map[string]interface{}` with the values that occur in one. Prelude has the natural numbers,
-- the `int` of Go with its wrap-around, lists, tests and texts. Outcome has results with errors
-- and panics, and runs: what a goroutine has sent so far and how it stands.
--
-- PlayerData, DataObjects: pkg/playerdata/player.go and pkg/matchmaker/dataobjects.go, a record
-- for each struct.
--
-- Rules: pkg/server/gameRules.go and `RulesFromJSON` of pkg/server/matchmaker.go.
-- `json.Unmarshal` is a parameter.
--
-- Matching: `buildMatch` and `MakeMatches` of pkg/server/matchmaker.go. Defs has the code; the
-- goroutine reads a list of the events that its `select` sees. The loop of `buildMatch` runs on
-- fuel: one more round than tickets wait. With a positive minimum each round takes at least one
-- ticket, so that this is enough; with a bound of 0 a round may take none. Build is about
-- positive bounds, Defects about a minimum of 0, Limits about rules with no negative number and
-- Products about all rules; Endings has how a call ends for any rules. The theorems on streams
-- of matches are about rules with no negative number, as the `valid` tags of
-- pkg/server/gameRules.go want the team numbers.
--
-- Backfill: `buildBackfillMatch` and `BackfillMatches` of the same file. The range loop runs
-- over the list that Go evaluates once. The attribute map of a backfill ticket is shared with
-- its proposals, so a write shows in the ticket that stays in the queue. Log lines are left
-- out.
--
-- Parties: `PlayerDataToParties` of pkg/pb/conversions.go, for every order in which `range`
-- visits a map.
--
-- Proto, Convert: the structs of pkg/pb/matchFunction.pb.go and the conversions of
-- pkg/pb/conversions.go. Convert.Json follows `convertAttribute` through encoding/json, on the
-- values that occur; texts are valid UTF-8. `AsMap` gives a number that is not finite as a
-- text, so the law of structpb that a map comes back as it was is stated for finite numbers
-- only.
--
-- Logic: the interface `MatchLogic` of pkg/server/interfaces.go as a record, and its
-- implementation `MatchMaker`. Service takes any such record: the unary handlers of
-- pkg/server/matchFunctionService.go, the beginnings of the stream handlers, and what the
-- goroutines that read the streams write to their channels. Service.Call has how a whole call
-- of a stream handler stands, from the first message on.
--
-- Pipeline: what both stream handlers do once they run. A reader takes messages from the stream
-- and writes to the ticket channels, a worker receives from these and writes results, and a
-- sender receives the results and calls `Send`; the channels have no buffer, so a write and its
-- receive are one step. Defs has the goroutines and their steps, any of which may come next.
-- What the reader, the worker and the sender do in their own code is a record, which
-- Service.MatchStream and Service.BackfillStream fill for `MakeMatches` and `BackfillMatches`.
-- Panics says where a panic comes from, Standing how they stand, Refinement shows that every
-- sequence of steps is a run of the worker alone, Bounds counts steps, Progress is about the
-- end and Failure about an error of `Send`. A step that fails to send may come at any response.
-- An empty list of messages stands for a client that sends nothing more and does not close the
-- stream.
--
-- Common: pkg/common/authServerInterceptor.go, with the token validator as a parameter,
-- pkg/common/utils.go, pkg/common/scope.go, pkg/common/logging.go and
-- pkg/common/tracerProvider.go; and the log levels of main.go. Start: the interceptors, the
-- validator and the names that main.go sets up; Start.Exit has how `main` ends if it runs
-- alone, and Start.Process the process, in which `main` and the goroutines that serve metrics
-- and calls take steps in any order and share the variable `err`, and a call may panic. That
-- `Serve` and `ListenAndServe` return with an error, as nobody stops them, is what their
-- documentation says. JwtModel: pkg/server/model.go.
--
-- Examples: tests, and the theorems at concrete inputs.
--
-- Calls of `uuid.NewRandom` are numbered, and the `n`-th one gives `uuid n`; that it fails is
-- not modelled.
--
-- A proposal shares its attribute map and the array of its teams with its backfill ticket,
-- which may stay in the queue. So a response may hold the teams and attributes of a later
-- proposal for the same backfill ticket. The worker writes into them just before it hands that
-- proposal over, and it can be at most one proposal ahead of the sender, since the channel has
-- no buffer: a step of `Send` knows the proposal that the worker is about to write, and allows
-- its values instead.
--
-- Not modelled: that the Go runtime may stop the program when it sees such a map written and
-- read at once, or that a team of a proposal is read while it is written: a team is read whole,
-- as it stands before or after the write; the generated gRPC stubs and the protobuf runtime;
-- the rest of main.go, which configures libraries only, and a signal that comes before main.go
-- waits for one. The two ticket channels are closed in one step. The context that the
-- goroutines select on comes from `context.Background()` and is never done, so that this case
-- of the `select` is in Matching and Backfill only.
pub mod Prelude
pub mod Value
pub mod External
pub mod Outcome
pub mod PlayerData
pub mod DataObjects
pub mod Rules
pub mod Matching
pub mod Proto
pub mod Convert
pub mod Parties
pub mod Backfill
pub mod Pipeline
pub mod Logic
pub mod Service
pub mod Start
pub mod JwtModel
pub mod Common
pub mod Examples
