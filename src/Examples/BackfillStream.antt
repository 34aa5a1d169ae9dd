-- ===== src/Examples/BackfillStream.antt =====
-- Runs of `BackfillMatches` on a small stream, with the packages of `External`.
use matchmaking_function_grp.Prelude.{
  ℕ, ◌+◌, ◌*◌, ◌≤◌, ◌≡◌, refl, String, true, none, some, List, [], ◌∷◌, ◌++◌, map, All, ◌⊎◌,
}
use mathlib.Core.List.{head?, Sublist}
use matchmaking_function_grp.External.{plain_pie, plain_protobuf, plain_protobuf-MakesMaps}
use matchmaking_function_grp.Outcome.{ok, err, Error, other, Panic, Ending}
use matchmaking_function_grp.DataObjects.{BackfillProposal}
use matchmaking_function_grp.Proto
use matchmaking_function_grp.Proto.{BackfillMakeMatchesRequest, BackfillResponse}
use matchmaking_function_grp.Convert.{
  proto_partial_match_to_matchfunction_match,
  proto_backfill_ticket_to_matchfunction_backfill_ticket, proto_ticket_to_matchfunction_ticket,
}
use matchmaking_function_grp.Backfill.{
  Queues, build_backfill_match, range_loop, is_excluded, write_map, with_attributes,
}
use matchmaking_function_grp.Backfill.Loop.{backfill_loop}
use matchmaking_function_grp.Backfill.Once.{added}
use matchmaking_function_grp.Pipeline.{
  Received, message, eof, Code, Handler, Step, Steps, here, next, start, inputs, Crash, sending,
}
use matchmaking_function_grp.Pipeline.Standing.{Answers, HasFailed, to_come}
use matchmaking_function_grp.Pipeline.Progress.{Closes}
use matchmaking_function_grp.Pipeline.Failure.{IsAbandoned}
use matchmaking_function_grp.Service.BackfillStream.{
  Input, read_backfill_request, backfill_input, backfill_code, backfill_matches_returned,
}
use matchmaking_function_grp.Service.BackfillStream.Responses.{
  as_event, IsUnrestricted, tickets_in, backfill_stream-prefix, backfill_stream_steps,
  backfill_stream_leaks,
}
use matchmaking_function_grp.Service.BackfillStream.Panics.{backfill_stream-Crash}
use matchmaking_function_grp.Examples.Data.{uuids, in_order, ticket_message}

abbrev pub Request : Type 0
Request = BackfillMakeMatchesRequest plain_protobuf.Struct plain_protobuf.Timestamp

abbrev pub Response : Type 0
Response = BackfillResponse plain_protobuf.Struct plain_protobuf.Timestamp

abbrev pub code : Code Request Input BackfillProposal Response Queues
code = backfill_code plain_pie plain_protobuf in_order uuids

abbrev pub session_message :
    String → Proto.BackfillTicket plain_protobuf.Struct plain_protobuf.Timestamp
session_message id = record {
  ticket_id = id;
  match_pool = "pool";
  created_at = none;
  partial_match = some (record {
    tickets = [];
    teams = [];
    region_preferences = [];
    match_attributes = none;
    backfill = true;
    server_name = "";
    client_version = "";
  });
  match_session_id = id;
}

abbrev pub sends_ticket : String → Received Request
sends_ticket id = message (BackfillMakeMatchesRequest.ticket (ticket_message id))

abbrev pub sends_session : String → Received Request
sends_session id = message (BackfillMakeMatchesRequest.backfill_ticket (session_message id))

-- Two tickets, two sessions, and the client closes its side.
abbrev pub stream : List (Received Request)
stream = sends_ticket "a" ∷ sends_ticket "b" ∷ sends_session "s" ∷ sends_session "t" ∷ eof ∷ []

pub record Reached (steps : ℕ) : Type 0 where
  pub state : Handler Request Input BackfillProposal Response Queues
  pub path : Steps code (start code ([], [], 0) stream) steps state

-- The two tickets wait, and the first session came.
abbrev pub session_came : Reached 8
unfolding read_backfill_request proto_backfill_ticket_to_matchfunction_backfill_ticket
    proto_partial_match_to_matchfunction_match backfill_input build_backfill_match range_loop
    is_excluded write_map proto_ticket_to_matchfunction_ticket with_attributes
session_came = record {
  state = _;
  path =
      next
        (next
          (next
            (next
              (next
                (next (next (next here (Step.receive refl refl)) (Step.take refl refl))
                  (Step.select refl))
                (Step.receive refl refl))
              (Step.take refl refl))
            (Step.select refl))
          (Step.receive refl refl))
        (Step.take refl refl);
}

-- The first session gets both tickets, and the goroutines end.
abbrev pub all_done : Reached 19
unfolding read_backfill_request proto_backfill_ticket_to_matchfunction_backfill_ticket
    proto_partial_match_to_matchfunction_match backfill_input build_backfill_match range_loop
    is_excluded write_map proto_ticket_to_matchfunction_ticket with_attributes
all_done = record {
  state = _;
  path =
      next
        (next
          (next
            (next
              (next
                (next
                  (next
                    (next
                      (next
                        (next (next (session_came.path) (Step.hand_over refl refl))
                          (Step.send refl (code.respond-IsResponse _ _)))
                        (Step.select refl))
                      (Step.receive refl refl))
                    (Step.take refl refl))
                  (Step.hand_over refl refl))
                (Step.send refl (code.respond-IsResponse _ _)))
              (Step.select refl))
            (Step.stop refl refl))
          (Step.notice refl refl))
        (Step.end_of_range refl refl);
}

abbrev broken : Error
broken = other "transport is closing"

-- The first proposal cannot be sent, and the worker makes another.
abbrev abandoned : Reached 13
unfolding read_backfill_request proto_backfill_ticket_to_matchfunction_backfill_ticket
    proto_partial_match_to_matchfunction_match backfill_input build_backfill_match range_loop
    is_excluded write_map proto_ticket_to_matchfunction_ticket with_attributes
abandoned = record {
  state = _;
  path =
      next
        (next
          (next
            (next (next (session_came.path) (Step.hand_over refl refl))
              (Step.fail_to_send broken refl))
            (Step.select refl))
          (Step.receive refl refl))
        (Step.take refl refl);
}

backfill_stream-prefix_example :
    (taken : List Input) × (later : List Input) × (proposals : List BackfillProposal)
    × (others : List BackfillProposal) × (taken ++ later ≡ inputs code stream)
    × Answers code proposals (head? others) all_done.state.sent
    × ((backfill_loop plain_pie in_order uuids (map as_event taken) true true ([], [], 0)).sent
        ≡ proposals ++ others)
    × Sublist (added proposals) (tickets_in (inputs code stream))
backfill_stream-prefix_example =
    backfill_stream-prefix plain_pie plain_protobuf in_order uuids stream 19 all_done.state
      all_done.path

pub all_done-returned : backfill_matches_returned all_done.state ≡ some (ok tt)
unfolding backfill_matches_returned read_backfill_request
    proto_backfill_ticket_to_matchfunction_backfill_ticket
    proto_partial_match_to_matchfunction_match backfill_input build_backfill_match range_loop
    is_excluded write_map proto_ticket_to_matchfunction_ticket with_attributes
all_done-returned = refl

backfill_stream_steps_example : 19 ≤ 7 * 5 + 3
backfill_stream_steps_example =
    backfill_stream_steps plain_pie plain_protobuf in_order uuids stream 19 all_done.state
      all_done.path

pub stream-IsUnrestricted : All IsUnrestricted (inputs code stream)
unfolding read_backfill_request proto_backfill_ticket_to_matchfunction_backfill_ticket
    proto_partial_match_to_matchfunction_match backfill_input build_backfill_match range_loop
    is_excluded write_map proto_ticket_to_matchfunction_ticket with_attributes
stream-IsUnrestricted = (refl, (refl, (tt, (tt, tt))))

pub stream-Closes : Closes code stream
unfolding read_backfill_request proto_backfill_ticket_to_matchfunction_backfill_ticket
    proto_partial_match_to_matchfunction_match backfill_input build_backfill_match range_loop
    is_excluded write_map proto_ticket_to_matchfunction_ticket with_attributes
stream-Closes = tt

pub session_came-not-HasFailed : ¬ HasFailed session_came.state.sender
unfolding read_backfill_request proto_backfill_ticket_to_matchfunction_backfill_ticket
    proto_partial_match_to_matchfunction_match backfill_input build_backfill_match range_loop
    is_excluded write_map proto_ticket_to_matchfunction_ticket with_attributes
session_came-not-HasFailed h = h

-- A backfill ticket that has no partial match.
abbrev bare_session : Proto.BackfillTicket plain_protobuf.Struct plain_protobuf.Timestamp
bare_session = record (session_message "s") { partial_match = none }

abbrev bare_stream : List (Received Request)
bare_stream = message (BackfillMakeMatchesRequest.backfill_ticket bare_session) ∷ eof ∷ []

bare_stream-Crash : Crash code (start code ([], [], 0) bare_stream) Panic.nil_dereference
unfolding read_backfill_request proto_backfill_ticket_to_matchfunction_backfill_ticket
    proto_partial_match_to_matchfunction_match
bare_stream-Crash = Crash.reader_panics refl refl

backfill_stream-Crash_example :
    ((Panic.nil_dereference ≡ Panic.nil_dereference)
      × (before : List (Received Request)) × (ticket : Proto.BackfillTicket plain_protobuf.Struct
          plain_protobuf.Timestamp)
      × (behind : List (Received Request)) × (bare_stream
          ≡ before ++ message (BackfillMakeMatchesRequest.backfill_ticket ticket) ∷ behind)
      × (ticket.partial_match ≡ none))
    ⊎ ((Panic.nil_dereference ≡ Panic.index_out_of_range)
        × ¬ All IsUnrestricted (inputs code bare_stream))
backfill_stream-Crash_example =
    backfill_stream-Crash plain_pie plain_protobuf in_order uuids plain_protobuf-MakesMaps
      bare_stream 0 (start code ([], [], 0) bare_stream) here Panic.nil_dereference
      bare_stream-Crash

abandoned-IsAbandoned :
    (o : BackfillProposal) × (os : List BackfillProposal) × (e : Ending Queues) × IsAbandoned code o
      os e broken abandoned.state
unfolding read_backfill_request proto_backfill_ticket_to_matchfunction_backfill_ticket
    proto_partial_match_to_matchfunction_match backfill_input build_backfill_match range_loop
    is_excluded write_map proto_ticket_to_matchfunction_ticket with_attributes
abandoned-IsAbandoned = (_, _, _, record { sender_failed = refl; worker_waits = refl })

abbrev reader_stopped :
    (t : Handler Request Input BackfillProposal Response Queues) × Steps code abandoned.state 1 t
unfolding read_backfill_request proto_backfill_ticket_to_matchfunction_backfill_ticket
    proto_partial_match_to_matchfunction_match backfill_input build_backfill_match range_loop
    is_excluded write_map proto_ticket_to_matchfunction_ticket with_attributes
reader_stopped = (_, next here (Step.stop refl refl))

backfill_stream_leaks_example :
    (backfill_matches_returned reader_stopped.0 ≡ some (err broken))
    × (reader_stopped.0.worker
        ≡ sending (abandoned-IsAbandoned.0 ∷ abandoned-IsAbandoned.1) abandoned-IsAbandoned.2)
    × (to_come code reader_stopped.0.reader ≡ to_come code abandoned.state.reader)
backfill_stream_leaks_example =
    backfill_stream_leaks plain_pie plain_protobuf in_order uuids abandoned-IsAbandoned.0
      abandoned-IsAbandoned.1 abandoned-IsAbandoned.2 broken abandoned.state abandoned-IsAbandoned.3
      1 reader_stopped.0 reader_stopped.1
