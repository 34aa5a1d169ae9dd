-- ===== src/Examples/Streams.antt =====
-- Runs of the stream handlers on small streams, with the packages of `External`.
use matchmaking_function_grp.Prelude.{
  ℕ, ◌+◌, ◌*◌, ◌≤◌, ◌<◌, ◌≡◌, ◌≢◌, refl, String, true, false, ◌++◌, none, some, List, [], ◌∷◌, map,
  length, mul_int, arith,
}
use matchmaking_function_grp.External.{plain_pie, plain_protobuf}
use matchmaking_function_grp.Outcome.{ok, Error, other, Panic, Ending}
use matchmaking_function_grp.DataObjects.{Ticket, Match}
use matchmaking_function_grp.Proto.{MakeMatchesRequest, MatchResponse}
use matchmaking_function_grp.Matching.{build_match, build_loop, player_bounds, one_match}
use matchmaking_function_grp.Matching.Limits.{Fits, rules_of}
use matchmaking_function_grp.Pipeline.{
  Received, message, eof, Code, Handler, Step, Steps, here, next, start, inputs, Crash,
}
use matchmaking_function_grp.Pipeline.Standing.{HasFailed, to_come}
use matchmaking_function_grp.Pipeline.Progress.{Closes}
use matchmaking_function_grp.Pipeline.Failure.{IsAbandoned}
use matchmaking_function_grp.Service.MatchStream.{
  match_code, read_match_request, match_response, make_matches_returned,
}
use matchmaking_function_grp.Service.MatchStream.Responses.{
  AreGroups, match_stream-prefix, match_stream-done, match_stream_steps, match_stream_hangs,
}
use matchmaking_function_grp.Service.Matches.{is_ticket}
use matchmaking_function_grp.Service.MatchStream.Panics.{match_stream-Crash}
use matchmaking_function_grp.Examples.Data.{uuids, two_to_three, ticket_message}

abbrev pub Request : Type 0
Request = MakeMatchesRequest plain_protobuf.Struct plain_protobuf.Timestamp

abbrev pub Response : Type 0
Response = MatchResponse plain_protobuf.Struct plain_protobuf.Timestamp

abbrev pub code : Code Request Ticket Match Response (List Ticket × ℕ)
code = match_code plain_pie plain_protobuf uuids (rules_of two_to_three true)

abbrev pub sends : String → Received Request
sends id = message (MakeMatchesRequest.ticket (ticket_message id))

-- Three tickets, and the client closes its side.
abbrev pub stream : List (Received Request)
stream = sends "a" ∷ sends "b" ∷ sends "c" ∷ eof ∷ []

-- Five tickets.
abbrev long_stream : List (Received Request)
long_stream = sends "a" ∷ sends "b" ∷ sends "c" ∷ sends "d" ∷ sends "e" ∷ eof ∷ []

pub record Reached (stream : List (Received Request)) (steps : ℕ) : Type 0 where
  pub state : Handler Request Ticket Match Response (List Ticket × ℕ)
  pub path : Steps code (start code ([], 0) stream) steps state

-- Two tickets were received, and their match is about to be sent.
abbrev pub matched_two : (rest : List (Received Request)) → Reached (sends "a" ∷ sends "b" ∷ rest) 6
unfolding read_match_request build_match build_loop player_bounds one_match mul_int
matched_two rest = record {
  state = _;
  path =
      next
        (next
          (next
            (next (next (next here (Step.receive refl refl)) (Step.take refl refl))
              (Step.select refl))
            (Step.receive refl refl))
          (Step.take refl refl))
        (Step.hand_over refl refl);
}

-- It is sent, the third ticket is received, and the goroutines end.
abbrev pub all_done : Reached stream 14
unfolding read_match_request build_match build_loop player_bounds one_match mul_int
all_done = record {
  state = _;
  path =
      next
        (next
          (next
            (next
              (next
                (next
                  (next (next (matched_two (sends "c" ∷ eof ∷ [])).path (Step.send refl refl))
                    (Step.select refl))
                  (Step.receive refl refl))
                (Step.take refl refl))
              (Step.select refl))
            (Step.stop refl refl))
          (Step.notice refl refl))
        (Step.end_of_range refl refl);
}

abbrev broken : Error
broken = other "transport is closing"

-- It cannot be sent, and two more tickets make a match.
abbrev abandoned : Reached long_stream 13
unfolding read_match_request build_match build_loop player_bounds one_match mul_int
abandoned = record {
  state = _;
  path =
      next
        (next
          (next
            (next
              (next
                (next
                  (next (matched_two (sends "c" ∷ sends "d" ∷ sends "e" ∷ eof ∷ [])).path
                    (Step.fail_to_send broken refl))
                  (Step.select refl))
                (Step.receive refl refl))
              (Step.take refl refl))
            (Step.select refl))
          (Step.receive refl refl))
        (Step.take refl refl);
}

stream-Closes : Closes code stream
unfolding read_match_request
stream-Closes = tt

pub two_to_three-Fits : Fits two_to_three
two_to_three-Fits = omega arith

match_stream-prefix_example :
    (matches : List Match) × (rest : List Ticket) × ((matched_two (sends "c" ∷ eof ∷ [])).state.sent
      ≡ map (match_response plain_pie plain_protobuf) matches)
    × AreGroups two_to_three true (inputs code stream) matches rest
match_stream-prefix_example =
    match_stream-prefix plain_pie plain_protobuf uuids two_to_three true two_to_three-Fits
      (omega arith) (omega arith) stream 6 (matched_two (sends "c" ∷ eof ∷ [])).state
      (matched_two (sends "c" ∷ eof ∷ [])).path

pub all_done-returned : make_matches_returned all_done.state ≡ some (ok tt)
unfolding make_matches_returned read_match_request build_match build_loop player_bounds one_match
    mul_int
all_done-returned = refl

pub all_done-not-HasFailed : ¬ HasFailed all_done.state.sender
unfolding read_match_request build_match build_loop player_bounds one_match mul_int
all_done-not-HasFailed h = h

match_stream-done_example :
    (matches : List Match) × (rest : List Ticket) × (all_done.state.sent
      ≡ map (match_response plain_pie plain_protobuf) matches)
    × AreGroups two_to_three true (inputs code stream) matches rest
    × (length rest < 2)
match_stream-done_example =
    match_stream-done plain_pie plain_protobuf uuids two_to_three true two_to_three-Fits
      (omega arith) (omega arith) stream 14 all_done.state all_done.path all_done-returned
      all_done-not-HasFailed

pub matched_two-not-HasFailed : ¬ HasFailed (matched_two (sends "c" ∷ eof ∷ [])).state.sender
unfolding read_match_request build_match build_loop player_bounds one_match mul_int
matched_two-not-HasFailed h = h

match_stream_steps_example : 14 ≤ 7 * 4 + 3
match_stream_steps_example =
    match_stream_steps plain_pie plain_protobuf uuids two_to_three true two_to_three-Fits
      (omega arith) (omega arith) stream 14 all_done.state all_done.path

-- The rules once more.
abbrev bad_stream : List (Received Request)
bad_stream = message (MakeMatchesRequest.parameters (record { rules = none })) ∷ eof ∷ []

bad_stream-Crash : Crash code (start code ([], 0) bad_stream) Panic.nil_dereference
unfolding read_match_request
bad_stream-Crash = Crash.reader_panics refl refl

match_stream-Crash_example :
    (Panic.nil_dereference ≡ Panic.nil_dereference)
    × (before : List (Received Request)) × (request : MakeMatchesRequest plain_protobuf.Struct
        plain_protobuf.Timestamp)
    × (behind : List (Received Request)) × (bad_stream ≡ before ++ message request ∷ behind)
    × (is_ticket plain_pie plain_protobuf request ≡ false)
match_stream-Crash_example =
    match_stream-Crash plain_pie plain_protobuf uuids two_to_three true two_to_three-Fits
      (omega arith) (omega arith) bad_stream 0 (start code ([], 0) bad_stream) here
      Panic.nil_dereference bad_stream-Crash

abandoned-IsAbandoned :
    (o : Match) × (os : List Match) × (e : Ending (List Ticket × ℕ)) × IsAbandoned code o os e
      broken abandoned.state
unfolding read_match_request build_match build_loop player_bounds one_match mul_int
abandoned-IsAbandoned = (_, _, _, record { sender_failed = refl; worker_waits = refl })

abandoned-to_come : to_come code abandoned.state.reader ≢ []
unfolding read_match_request build_match build_loop player_bounds one_match mul_int
abandoned-to_come h = cc

abbrev one_more :
    (t : Handler Request Ticket Match Response (List Ticket × ℕ)) × Steps code abandoned.state 1 t
unfolding read_match_request build_match build_loop player_bounds one_match mul_int
one_more = (_, next here (Step.receive refl refl))

match_stream_hangs_example :
    (make_matches_returned one_more.0 ≡ none) × (one_more.0.sent ≡ abandoned.state.sent)
match_stream_hangs_example =
    match_stream_hangs plain_pie plain_protobuf uuids (rules_of two_to_three true)
      abandoned-IsAbandoned.0 abandoned-IsAbandoned.1 abandoned-IsAbandoned.2 broken abandoned.state
      abandoned-IsAbandoned.3 abandoned-to_come 1 one_more.0 one_more.1
