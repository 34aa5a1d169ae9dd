-- ===== src/Service/MatchStream/Defs.antt =====
-- The goroutines of `MakeMatches`. The rules are a `GameRules`, as always when `RulesFromJSON` of
-- `MatchMaker` has no error; with others the results channel is nil. The context of the scope is
-- that of `context.Background()`, which is never done.
use matchmaking_function_grp.Prelude.{ℕ, ◌≡◌, refl, String, Option, none, some, List}
use matchmaking_function_grp.External.{Pie, Protobuf}
use matchmaking_function_grp.Outcome.{Result, ok, nil_dereference}
use matchmaking_function_grp.DataObjects.{Ticket, Match}
use matchmaking_function_grp.Rules.{GameRules}
use matchmaking_function_grp.Proto.{MakeMatchesRequest, MatchResponse}
use matchmaking_function_grp.Convert.{
  proto_ticket_to_matchfunction_ticket, matchfunction_match_to_proto_match,
}
use matchmaking_function_grp.Matching.{build_match}
use matchmaking_function_grp.Pipeline.{
  Received, message, eof, recv_error, Read, hands, stops, crashes, Code, Reader, stopped, Sender,
  finished, Handler,
}

module _ (pie : Pie) (pb : Protobuf) where
  open pb use {Struct, Timestamp}

  -- The body of the loop of the first goroutine.
  unfoldable pub read_match_request : Received (MakeMatchesRequest Struct Timestamp) → Read Ticket
  read_match_request (message (MakeMatchesRequest.ticket t)) =
      hands (proto_ticket_to_matchfunction_ticket pie pb t)
  read_match_request (message (MakeMatchesRequest.parameters p)) = crashes nil_dereference
  read_match_request (message MakeMatchesRequest.unset) = crashes nil_dereference
  read_match_request eof = stops
  read_match_request (recv_error e) = stops

  unfoldable pub match_response : Match → MatchResponse Struct Timestamp
  match_response m = record { found = matchfunction_match_to_proto_match pie pb m }

  -- The state of the worker: its queue, and how many UUIDs were generated.
  abbrev pub match_code :
      (ℕ → String)
      → GameRules
      → Code
          (MakeMatchesRequest Struct Timestamp)
          Ticket
          Match
          (MatchResponse Struct Timestamp)
          (List Ticket × ℕ)
  match_code uuid rule = record {
    read = read_match_request;
    work = λ (queue, count) ticket. build_match pie uuid rule count ticket queue;
    respond = match_response;
    IsResponse = λ m next r. r ≡ match_response m;
    respond-IsResponse = λ m next. refl;
    IsResponse-later = λ m next r h. h;
  }

-- `wg.Wait()` waits for the reader and the sender. After it the handler returns nil, also where
-- the sender has met an error.
abbrev pub waited :
    {Request In Out : Type 0} → Reader Request In → Sender Out → Option (Result (Unit {0}))
waited stopped (finished e) = some (ok tt)
waited reader sender = none

unfoldable pub make_matches_returned :
    {Request In Out Response State : Type 0}
    → Handler Request In Out Response State
    → Option (Result (Unit {0}))
make_matches_returned s = waited s.reader s.sender
