-- ===== src/Examples/BackfillCalls.antt =====
-- A whole call of `BackfillMatches` on the small stream.
use matchmaking_function_grp.Prelude.{ℕ, ◌≡◌, ◌↔◌, refl, String, true, some, [], ◌∷◌, All}
use matchmaking_function_grp.External.{plain_pie, plain_protobuf, plain_protobuf-MakesMaps}
use matchmaking_function_grp.Outcome.{Result, ok}
use matchmaking_function_grp.DataObjects.{BackfillProposal}
use matchmaking_function_grp.Rules.{GameRules, rules_from_json, check_rules}
use matchmaking_function_grp.Rules.Checks.{IsChecked}
use matchmaking_function_grp.Matching.Limits.{rules_of}
use matchmaking_function_grp.Backfill.{
  Queues, build_backfill_match, range_loop, is_excluded, write_map, with_attributes, new_proposal,
}
use matchmaking_function_grp.Logic.{match_maker}
use matchmaking_function_grp.Pipeline.{start, Handler, Steps, Received}
use matchmaking_function_grp.Service.{start_backfill_matches}
use matchmaking_function_grp.Service.Call.{running_with, run_with, run_rules}
use matchmaking_function_grp.Service.BackfillStream.{
  Input, backfill_matches_returned, read_backfill_request, backfill_input, backfill_response,
}
use matchmaking_function_grp.Service.BackfillStream.Call.{
  brings, handle_backfill_matches, handle_backfill_matches-runs,
}
use matchmaking_function_grp.Service.BackfillStream.Added.{
  added_ids, sent_ids, AreAdmitted, handle_backfill_matches-Sublist,
}
use mathlib.Core.List.{Sublist}
use matchmaking_function_grp.Convert.{
  proto_partial_match_to_matchfunction_match,
  proto_backfill_ticket_to_matchfunction_backfill_ticket, proto_ticket_to_matchfunction_ticket,
  matchfunction_backfill_proposal_to_proto_backfill_proposal, added_ticket,
}
use matchmaking_function_grp.Service.BackfillStream.Returns.{
  IsAnswered, handle_backfill_matches_lem, handle_backfill_matches-returns,
}
use matchmaking_function_grp.Examples.Data.{uuids, two_to_three, in_order}
use matchmaking_function_grp.Examples.BackfillStream.{
  Request, Response, code, stream, session_came, session_came-not-HasFailed, all_done,
  all_done-returned, stream-IsUnrestricted, stream-Closes,
}

-- Every text is read as the rules for two or three players.
abbrev reader : String → Result GameRules
reader text = ok (rules_of two_to_three true)

abbrev first : Received Request
first = brings plain_pie plain_protobuf in_order uuids reader "{}"

handle_backfill_matches-runs_example :
    (handle_backfill_matches plain_pie plain_protobuf in_order uuids reader (first ∷ stream)
      ≡ running_with (rules_of two_to_three true) (start code ([], [], 0) stream))
    ↔ ((text : String) × (first ≡ brings plain_pie plain_protobuf in_order uuids reader text)
        × (reader text ≡ ok (rules_of two_to_three true))
        × IsChecked (rules_of two_to_three true)
        × (start code ([], [], 0) stream ≡ start code ([], [], 0) stream))
handle_backfill_matches-runs_example =
    handle_backfill_matches-runs plain_pie plain_protobuf in_order uuids reader first stream
      (rules_of two_to_three true) (start code ([], [], 0) stream)

runs :
    handle_backfill_matches plain_pie plain_protobuf in_order uuids reader (first ∷ stream)
    ≡ running_with (rules_of two_to_three true) (start code ([], [], 0) stream)
unfolding handle_backfill_matches start_backfill_matches match_maker rules_from_json check_rules
    run_with run_rules
runs = refl

handle_backfill_matches_lem_example :
    IsAnswered plain_pie plain_protobuf in_order uuids reader
      (rules_of two_to_three true)
      stream
      all_done.state.sent
handle_backfill_matches_lem_example =
    handle_backfill_matches_lem plain_pie plain_protobuf in_order uuids reader first stream
      (rules_of two_to_three true) (start code ([], [], 0) stream) 19 all_done.state runs
      all_done.path all_done-returned

handle_backfill_matches-returns_example :
    (j : ℕ) × (u : Handler Request Input BackfillProposal Response Queues) × Steps code
      session_came.state j u
    × (backfill_matches_returned u ≡ some (ok tt))
    × IsAnswered plain_pie plain_protobuf in_order uuids reader
        (rules_of two_to_three true)
        stream
        u.sent
handle_backfill_matches-returns_example =
    handle_backfill_matches-returns plain_pie plain_protobuf in_order uuids reader
      plain_protobuf-MakesMaps first stream (rules_of two_to_three true)
      (start code ([], [], 0) stream) 8 session_came.state stream-IsUnrestricted stream-Closes runs
      session_came.path session_came-not-HasFailed

handle_backfill_matches-Sublist_example :
    Sublist
      (added_ids plain_pie plain_protobuf in_order uuids all_done.state.sent)
      (sent_ids plain_pie plain_protobuf in_order uuids stream)
    × All (AreAdmitted plain_pie plain_protobuf in_order uuids) all_done.state.sent
handle_backfill_matches-Sublist_example =
    handle_backfill_matches-Sublist plain_pie plain_protobuf in_order uuids reader first stream
      (rules_of two_to_three true) (start code ([], [], 0) stream) 19 all_done.state runs
      all_done.path

both_answered :
    added_ids plain_pie plain_protobuf in_order uuids all_done.state.sent ≡ "a" ∷ "b" ∷ []
unfolding read_backfill_request proto_backfill_ticket_to_matchfunction_backfill_ticket
    proto_partial_match_to_matchfunction_match backfill_input build_backfill_match range_loop
    is_excluded write_map proto_ticket_to_matchfunction_ticket with_attributes backfill_response
    matchfunction_backfill_proposal_to_proto_backfill_proposal added_ticket new_proposal
both_answered = refl
