-- ===== src/Service/Streams.antt =====
-- The goroutines that read the two streams, and how the handlers start.
use matchmaking_function_grp.Prelude.{Option, none, some, List, [], ◌∷◌}
use matchmaking_function_grp.External.{Pie, Protobuf}
use matchmaking_function_grp.Outcome.{
  Result, ok, err, panic, Error, other, Panic, ◌>>=◌, nil_dereference,
}
use matchmaking_function_grp.Rules.{RuleSet}
use matchmaking_function_grp.DataObjects
use matchmaking_function_grp.Proto.{MakeMatchesRequest, BackfillMakeMatchesRequest}
use matchmaking_function_grp.Convert.{
  proto_ticket_to_matchfunction_ticket, proto_backfill_ticket_to_matchfunction_backfill_ticket,
}
use matchmaking_function_grp.Matching
use matchmaking_function_grp.Backfill.Loop
use matchmaking_function_grp.Logic.{MatchLogic}
use matchmaking_function_grp.Service.Unary.{dereference}
use matchmaking_function_grp.Pipeline.{Received, message, eof, recv_error}

abbrev pub unmet : Error
unmet = other "expected parameters in the first message were not met"

-- What a goroutine wrote to the ticket channels, and whether it panicked then. Both ways it has
-- closed the channels: by its deferred call, or with the process.
pub record Feed (Event : Type 0) : Type 0 where
  pub events : List Event
  pub crash : Option Panic

module _ {Event : Type 0} where
  abbrev pub stop : List Event → Feed Event
  stop events = record { events = events; crash = none }

  abbrev pub crashed : Panic → Feed Event
  crashed p = record { events = []; crash = some p }

  abbrev pub write : Event → Feed Event → Feed Event
  write event feed = record { events = event ∷ feed.events; crash = feed.crash }

module _ (pie : Pie) (pb : Protobuf) where
  open pb use {Struct, Timestamp}

  -- The first goroutine of `MakeMatches`. A request that is no ticket is logged with `t.Ticket`,
  -- where `t` is nil. An empty list stands for a stream on which nothing more has come.
  unfoldable pub receive_tickets :
      List (Received (MakeMatchesRequest Struct Timestamp)) → Feed Matching.Event
  receive_tickets [] = stop []
  receive_tickets (eof ∷ stream) = stop (Matching.tickets_closed ∷ [])
  receive_tickets (recv_error e ∷ stream) = stop (Matching.tickets_closed ∷ [])
  receive_tickets (message (MakeMatchesRequest.ticket t) ∷ stream) =
      write (Matching.ticket_received (proto_ticket_to_matchfunction_ticket pie pb t))
        (receive_tickets stream)
  receive_tickets (message (MakeMatchesRequest.parameters p) ∷ stream) = crashed nil_dereference
  receive_tickets (message MakeMatchesRequest.unset ∷ stream) = crashed nil_dereference

  abbrev closed_channels : List Loop.Event
  closed_channels = Loop.tickets_closed ∷ Loop.backfill_tickets_closed ∷ []

  abbrev pub write_backfill : Result DataObjects.BackfillTicket → Feed Loop.Event → Feed Loop.Event
  write_backfill (ok t) feed = write (Loop.backfill_ticket_received t) feed
  write_backfill (err e) feed = feed
  write_backfill (panic p) feed = crashed p

  -- `fetchBackfillTickets`. A request that is neither kind of ticket is passed over.
  unfoldable pub fetch_backfill_tickets :
      List (Received (BackfillMakeMatchesRequest Struct Timestamp)) → Feed Loop.Event
  fetch_backfill_tickets [] = stop []
  fetch_backfill_tickets (eof ∷ stream) = stop closed_channels
  fetch_backfill_tickets (recv_error e ∷ stream) = stop closed_channels
  fetch_backfill_tickets (message (BackfillMakeMatchesRequest.ticket t) ∷ stream) =
      write (Loop.ticket_received (proto_ticket_to_matchfunction_ticket pie pb t))
        (fetch_backfill_tickets stream)
  fetch_backfill_tickets (message (BackfillMakeMatchesRequest.backfill_ticket t) ∷ stream) =
      write_backfill (proto_backfill_ticket_to_matchfunction_backfill_ticket pie pb t)
        (fetch_backfill_tickets stream)
  fetch_backfill_tickets (message (BackfillMakeMatchesRequest.parameters p) ∷ stream) =
      fetch_backfill_tickets stream
  fetch_backfill_tickets (message BackfillMakeMatchesRequest.unset ∷ stream) =
      fetch_backfill_tickets stream

abbrev pub end_of_file : Error
end_of_file = other "EOF"

module _ (pb : Protobuf) (mm : MatchLogic) where
  open pb use {Struct, Timestamp}

  -- The beginning of `MakeMatches`, up to the rules.
  unfoldable pub start_make_matches :
      Received (MakeMatchesRequest Struct Timestamp) → Result RuleSet
  start_make_matches eof = err end_of_file
  start_make_matches (recv_error e) = err e
  start_make_matches (message (MakeMatchesRequest.parameters p)) = do
    request_rules ← dereference p.rules
    mm.rules_of_json request_rules.json
  start_make_matches (message (MakeMatchesRequest.ticket t)) = err unmet
  start_make_matches (message MakeMatchesRequest.unset) = err unmet

  abbrev pub some_rules : Result RuleSet → Result (Option RuleSet)
  some_rules r = r >>= λ rules. ok (some rules)

  -- The beginning of `BackfillMatches`; `none` is the early return with no error.
  unfoldable pub start_backfill_matches :
      Received (BackfillMakeMatchesRequest Struct Timestamp) → Result (Option RuleSet)
  start_backfill_matches eof = ok none
  start_backfill_matches (recv_error e) = err e
  start_backfill_matches (message (BackfillMakeMatchesRequest.parameters p)) = do
    request_rules ← dereference p.rules
    some_rules (mm.rules_of_json request_rules.json)
  start_backfill_matches (message (BackfillMakeMatchesRequest.ticket t)) = err unmet
  start_backfill_matches (message (BackfillMakeMatchesRequest.backfill_ticket t)) = err unmet
  start_backfill_matches (message BackfillMakeMatchesRequest.unset) = err unmet
