-- ===== src/Examples/Calls.antt =====
-- A whole call of `MakeMatches` on the small stream.
use matchmaking_function_grp.Prelude.{
  ℕ, some, ◌<◌, ◌≡◌, ◌↔◌, refl, String, true, List, [], ◌∷◌, map, length, arith,
}
use matchmaking_function_grp.External.{plain_pie, plain_protobuf}
use matchmaking_function_grp.Outcome.{Result, ok}
use matchmaking_function_grp.DataObjects.{Ticket, Match}
use matchmaking_function_grp.Rules.{GameRules, rules_from_json, check_rules}
use matchmaking_function_grp.Proto
use matchmaking_function_grp.Matching.Limits.{rules_of}
use matchmaking_function_grp.Logic.{match_maker}
use matchmaking_function_grp.Pipeline.{eof, start, Handler, Steps}
use matchmaking_function_grp.Service.{start_make_matches}
use matchmaking_function_grp.Service.Call.{running_with, run_with, run_rules}
use matchmaking_function_grp.Rules.Checks.{IsChecked}
use matchmaking_function_grp.Service.Matches.{sends, converted}
use matchmaking_function_grp.Service.MatchStream.{match_response, make_matches_returned}
use matchmaking_function_grp.Service.MatchStream.Responses.{AreGroups}
use matchmaking_function_grp.Service.MatchStream.Call.{
  handle_make_matches, handle_make_matches-runs, brings, handle_make_matches_lem,
  handle_make_matches-returns,
}
use matchmaking_function_grp.Examples.Data.{uuids, two_to_three, in_order, ticket_message}
use matchmaking_function_grp.Examples.Streams.{
  Request, Response, code, stream, sends as sent, matched_two, matched_two-not-HasFailed, all_done,
  all_done-returned, all_done-not-HasFailed, two_to_three-Fits,
}

-- Every text is read as the rules for two or three players.
abbrev reader : String → Result GameRules
reader text = ok (rules_of two_to_three true)

abbrev tickets : List (Proto.Ticket plain_protobuf.Struct plain_protobuf.Timestamp)
tickets = ticket_message "a" ∷ ticket_message "b" ∷ ticket_message "c" ∷ []

handle_make_matches-runs_example :
    (handle_make_matches plain_pie plain_protobuf in_order uuids reader
        (brings plain_pie plain_protobuf in_order uuids reader "{}" ∷ stream)
      ≡ running_with (rules_of two_to_three true) (start code ([], 0) stream))
    ↔ ((text : String) × (brings plain_pie plain_protobuf in_order uuids reader "{}"
          ≡ brings plain_pie plain_protobuf in_order uuids reader text)
        × (reader text ≡ ok (rules_of two_to_three true))
        × IsChecked (rules_of two_to_three true)
        × (start code ([], 0) stream ≡ start code ([], 0) stream))
handle_make_matches-runs_example =
    handle_make_matches-runs plain_pie plain_protobuf in_order uuids reader
      (brings plain_pie plain_protobuf in_order uuids reader "{}") stream
      (rules_of two_to_three true) (start code ([], 0) stream)

runs :
    handle_make_matches plain_pie plain_protobuf in_order uuids reader (
      brings plain_pie plain_protobuf in_order uuids reader "{}"
      ∷ sends plain_pie plain_protobuf tickets (eof ∷ []))
    ≡ running_with (rules_of two_to_three true) (start code ([], 0) stream)
unfolding handle_make_matches start_make_matches match_maker rules_from_json check_rules run_with
    run_rules
runs = refl

handle_make_matches_lem_example :
    (matches : List Match) × (rest : List Ticket) × (all_done.state.sent
      ≡ map (match_response plain_pie plain_protobuf) matches)
    × AreGroups two_to_three true (converted plain_pie plain_protobuf tickets) matches rest
    × (length rest < 2)
handle_make_matches_lem_example =
    handle_make_matches_lem plain_pie plain_protobuf in_order uuids reader two_to_three true "{}"
      tickets (rules_of two_to_three true) (start code ([], 0) stream) 14 all_done.state refl
      two_to_three-Fits (omega arith) runs all_done.path all_done-returned all_done-not-HasFailed

handle_make_matches-returns_example :
    (j : ℕ) × (u : Handler Request Ticket Match Response (List Ticket × ℕ)) × Steps code
      (matched_two (sent "c" ∷ eof ∷ [])).state
      j
      u
    × (make_matches_returned u ≡ some (ok tt))
    × (matches : List Match) × (rest : List Ticket) × (u.sent
        ≡ map (match_response plain_pie plain_protobuf) matches)
    × AreGroups two_to_three true (converted plain_pie plain_protobuf tickets) matches rest
    × (length rest < 2)
handle_make_matches-returns_example =
    handle_make_matches-returns plain_pie plain_protobuf in_order uuids reader two_to_three true
      "{}" tickets (rules_of two_to_three true) (start code ([], 0) stream) 6
      (matched_two (sent "c" ∷ eof ∷ [])).state refl two_to_three-Fits (omega arith) runs
      (matched_two (sent "c" ∷ eof ∷ [])).path matched_two-not-HasFailed
