-- ===== src/Examples/BackfillRuns.antt =====
-- A run of `BackfillMatches` in which each session gets one ticket, with the packages of
-- `External`.
use matchmaking_function_grp.Prelude.{
  ◌≡◌, ◌≢◌, refl, String, true, false, some, List, [], ◌∷◌, map, ap, str_eq,
}
use matchmaking_function_grp.External.{plain_pie, plain_protobuf}
use matchmaking_function_grp.Outcome.{ok}
use matchmaking_function_grp.DataObjects.{BackfillProposal}
use matchmaking_function_grp.Convert.{
  proto_partial_match_to_matchfunction_match,
  proto_backfill_ticket_to_matchfunction_backfill_ticket, proto_ticket_to_matchfunction_ticket,
}
use matchmaking_function_grp.Backfill.{
  Queues, build_backfill_match, range_loop, is_excluded, write_map, with_attributes, new_proposal,
}
use matchmaking_function_grp.Backfill.Loop.{backfill_loop}
use matchmaking_function_grp.Pipeline.{
  Received, eof, Handler, Step, Steps, here, next, start, inputs,
}
use matchmaking_function_grp.Service.BackfillStream.{
  Input, read_backfill_request, backfill_input, backfill_response, backfill_matches_returned,
}
use matchmaking_function_grp.Service.BackfillStream.Responses.{as_event}
use matchmaking_function_grp.Service.BackfillStream.Exact.{Alternate, backfill_stream-exact}
use matchmaking_function_grp.Examples.Data.{uuids, in_order}
use matchmaking_function_grp.Examples.BackfillStream.{
  Request, Response, code, sends_ticket, sends_session,
}

-- Each session waits for the ticket that comes next.
abbrev fresh_stream : List (Received Request)
fresh_stream =
    sends_session "s" ∷ sends_ticket "a" ∷ sends_session "t" ∷ sends_ticket "b" ∷ eof ∷ []

abbrev fresh_done :
    (s : Handler Request Input BackfillProposal Response Queues) × Steps code
      (start code ([], [], 0) fresh_stream)
      19
      s
unfolding read_backfill_request proto_backfill_ticket_to_matchfunction_backfill_ticket
    proto_partial_match_to_matchfunction_match backfill_input build_backfill_match range_loop
    is_excluded write_map proto_ticket_to_matchfunction_ticket with_attributes
fresh_done = (
  _,
  (next
      (next
        (next
          (next
            (next
              (next
                (next
                  (next
                    (next
                      (next
                        (next
                          (next
                            (next
                              (next
                                (next
                                  (next
                                    (next
                                      (next (next here (Step.receive refl refl))
                                        (Step.take refl refl))
                                      (Step.select refl))
                                    (Step.receive refl refl))
                                  (Step.take refl refl))
                                (Step.hand_over refl refl))
                              (Step.send refl (code.respond-IsResponse _ _)))
                            (Step.select refl))
                          (Step.receive refl refl))
                        (Step.take refl refl))
                      (Step.select refl))
                    (Step.receive refl refl))
                  (Step.take refl refl))
                (Step.hand_over refl refl))
              (Step.send refl (code.respond-IsResponse _ _)))
            (Step.select refl))
          (Step.stop refl refl))
        (Step.notice refl refl))
      (Step.end_of_range refl refl)),
)

fresh_done-returned : backfill_matches_returned fresh_done.0 ≡ some (ok tt)
unfolding backfill_matches_returned read_backfill_request
    proto_backfill_ticket_to_matchfunction_backfill_ticket
    proto_partial_match_to_matchfunction_match backfill_input build_backfill_match range_loop
    is_excluded write_map proto_ticket_to_matchfunction_ticket with_attributes
fresh_done-returned = refl

sessions_differ : ◌≢◌ {A = String} "t" "s"
sessions_differ h = let e : true ≡ false = ap (λ x. str_eq x "t") h in cc e

fresh_stream-Alternate :
    Alternate
      (backfill_loop plain_pie in_order uuids
        (map as_event (inputs code fresh_stream))
        true
        true
        ([], [], 0)).sent
unfolding read_backfill_request proto_backfill_ticket_to_matchfunction_backfill_ticket
    proto_partial_match_to_matchfunction_match backfill_input build_backfill_match range_loop
    is_excluded write_map proto_ticket_to_matchfunction_ticket with_attributes backfill_loop
    new_proposal
fresh_stream-Alternate = (sessions_differ, tt)

backfill_stream-exact_example :
    fresh_done.0.sent
    ≡ map
        (backfill_response plain_pie plain_protobuf)
        (backfill_loop plain_pie in_order uuids
          (map as_event (inputs code fresh_stream))
          true
          true
          ([], [], 0)).sent
backfill_stream-exact_example =
    backfill_stream-exact plain_pie plain_protobuf in_order uuids fresh_stream 19 fresh_done.0
      fresh_done.1 fresh_done-returned fresh_stream-Alternate
