-- ===== src/Service/BackfillStream/Defs.antt =====
-- The goroutines of `BackfillMatches`: `fetchBackfillTickets`, the goroutine of `BackfillMatches` of
-- `MatchMaker`, and the handler itself, which sends the responses and does not wait for the others.
-- The worker sees the two channels closed one after the other, which is one step here.
use matchmaking_function_grp.Prelude.{ℕ, ◌≡◌, ◌⊎◌, inl, inr, refl, String, Option, none, some, List}
use matchmaking_function_grp.External.{Pie, Protobuf}
use matchmaking_function_grp.Outcome.{Result, ok, err, panic, Run}
use matchmaking_function_grp.DataObjects.{Ticket, Team, BackfillTicket, BackfillProposal}
use matchmaking_function_grp.Value.{Attributes}
use matchmaking_function_grp.Proto.{BackfillMakeMatchesRequest, BackfillResponse}
use matchmaking_function_grp.Convert.{
  proto_ticket_to_matchfunction_ticket, proto_backfill_ticket_to_matchfunction_backfill_ticket,
  matchfunction_backfill_proposal_to_proto_backfill_proposal,
}
use matchmaking_function_grp.Parties.{PartyMap}
use matchmaking_function_grp.Backfill.{Queues, build_backfill_match}
use matchmaking_function_grp.Pipeline.{
  Received, message, eof, recv_error, Read, hands, passes, stops, crashes, Code, Sender, ranging,
  responding, finished, Handler,
}

-- What comes on the two channels.
pub data Input : Type 0 where
  match_ticket : Ticket → Input
  backfill_ticket : BackfillTicket → Input

abbrev pub hand_backfill_ticket : Result BackfillTicket → Read Input
hand_backfill_ticket (ok t) = hands (backfill_ticket t)
hand_backfill_ticket (err e) = passes
hand_backfill_ticket (panic p) = crashes p

left_of : {A : Type 0} → A ⊎ ⊥ → A
left_of (inl a) = a
left_of (inr e) = absurd e

-- The next proposal is for the same backfill ticket, and `P` holds of it.
abbrev pub Shares :
    BackfillProposal → Option BackfillProposal → (BackfillProposal → Type 0) → Type 0
Shares proposal none P = ⊥
Shares proposal (some later) P = (later.backfill_ticket_id ≡ proposal.backfill_ticket_id) × P later

module _ (pie : Pie) (pb : Protobuf) where
  open pb use {Struct, Timestamp}

  -- The body of the loop of `fetchBackfillTickets`.
  unfoldable pub read_backfill_request :
      Received (BackfillMakeMatchesRequest Struct Timestamp) → Read Input
  read_backfill_request (message (BackfillMakeMatchesRequest.ticket t)) =
      hands (match_ticket (proto_ticket_to_matchfunction_ticket pie pb t))
  read_backfill_request (message (BackfillMakeMatchesRequest.backfill_ticket t)) =
      hand_backfill_ticket (proto_backfill_ticket_to_matchfunction_backfill_ticket pie pb t)
  read_backfill_request (message (BackfillMakeMatchesRequest.parameters p)) = passes
  read_backfill_request (message BackfillMakeMatchesRequest.unset) = passes
  read_backfill_request eof = stops
  read_backfill_request (recv_error e) = stops

  unfoldable pub backfill_response : BackfillProposal → BackfillResponse Struct Timestamp
  backfill_response proposal = record {
    backfill_proposal = matchfunction_backfill_proposal_to_proto_backfill_proposal pie pb proposal;
  }

  -- The attribute map of a proposal, and the array that its teams are in, are those of its backfill
  -- ticket. If this has stayed in the queue, the worker may have made the next proposal for it, and
  -- written there, before this one is converted.
  pub record IsBackfillResponse (proposal : BackfillProposal) (next : Option BackfillProposal)
      (response : BackfillResponse Struct Timestamp) : Type 0 where
    pub teams : List Team
    pub attributes : Attributes
    pub teams_held :
        (teams ≡ proposal.proposed_teams)
        ⊎ Shares proposal next (λ later. teams ≡ later.proposed_teams)
    pub attributes_held :
        (attributes ≡ proposal.attributes)
        ⊎ Shares proposal next (λ later. attributes ≡ later.attributes)
    pub converted :
        response
        ≡ backfill_response (record proposal { proposed_teams = teams; attributes = attributes })

  pub backfill_response-IsBackfillResponse :
      (proposal : BackfillProposal) (next : Option BackfillProposal)
      → IsBackfillResponse proposal next (backfill_response proposal)
  backfill_response-IsBackfillResponse proposal next = record {
    teams = proposal.proposed_teams;
    attributes = proposal.attributes;
    teams_held = inl refl;
    attributes_held = inl refl;
    converted = refl;
  }

  pub IsBackfillResponse-later :
      (proposal : BackfillProposal) (next : Option BackfillProposal)
      (response : BackfillResponse Struct Timestamp)
      → IsBackfillResponse proposal none response
      → IsBackfillResponse proposal next response
  IsBackfillResponse-later proposal next response h = record {
    teams = h.teams;
    attributes = h.attributes;
    teams_held = inl (left_of h.teams_held);
    attributes_held = inl (left_of h.attributes_held);
    converted = h.converted;
  }

module _ (pie : Pie) (order : PartyMap → PartyMap) (uuid : ℕ → String) where
  -- A ticket, or a backfill ticket, for `buildBackfillMatch`.
  unfoldable pub backfill_input : Queues → Input → Run BackfillProposal Queues
  backfill_input (tickets, backfill_tickets, count) (match_ticket t) =
      build_backfill_match pie order uuid count (some t) none tickets backfill_tickets
  backfill_input (tickets, backfill_tickets, count) (backfill_ticket t) =
      build_backfill_match pie order uuid count none (some t) tickets backfill_tickets

module _ (pie : Pie) (pb : Protobuf) (order : PartyMap → PartyMap) (uuid : ℕ → String) where
  abbrev pub backfill_code :
      Code
        (BackfillMakeMatchesRequest pb.Struct pb.Timestamp)
        Input
        BackfillProposal
        (BackfillResponse pb.Struct pb.Timestamp)
        Queues
  backfill_code = record {
    read = read_backfill_request pie pb;
    work = backfill_input pie order uuid;
    respond = backfill_response pie pb;
    IsResponse = IsBackfillResponse pie pb;
    respond-IsResponse = backfill_response-IsBackfillResponse pie pb;
    IsResponse-later = IsBackfillResponse-later pie pb;
  }

-- The handler is the sender: it returns at the end of its loop, or with the error of `Send`.
abbrev pub sender_result : {Out : Type 0} → Sender Out → Option (Result (Unit {0}))
sender_result ranging = none
sender_result (responding o) = none
sender_result (finished none) = some (ok tt)
sender_result (finished (some e)) = some (err e)

unfoldable pub backfill_matches_returned :
    {Request In Out Response State : Type 0}
    → Handler Request In Out Response State
    → Option (Result (Unit {0}))
backfill_matches_returned s = sender_result s.sender
