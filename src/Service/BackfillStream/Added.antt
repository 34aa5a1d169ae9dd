-- ===== src/Service/BackfillStream/Added.antt =====
-- Which tickets of its client a call of `BackfillMatches` answers with.
use matchmaking_function_grp.Prelude.{
  ℕ, ◌≡◌, ◌≢◌, refl, ap, sym, subst, ◌∙◌, String, false, Option, List, [], ◌∷◌, ◌++◌, map, All,
  All-append_left, Sublist-map,
}
use mathlib.Core.List.{head?, Sublist, nil-sublist, map-append}
use mathlib.Core.List.Sublist
use matchmaking_function_grp.External.{Pie, Protobuf}
use matchmaking_function_grp.Outcome.{Result, ok, err, panic, Run}
use matchmaking_function_grp.DataObjects
use matchmaking_function_grp.DataObjects.{Ticket, BackfillProposal}
use matchmaking_function_grp.Rules.{GameRules}
use matchmaking_function_grp.Proto
use matchmaking_function_grp.Proto.{BackfillMakeMatchesRequest, BackfillResponse}
use matchmaking_function_grp.Convert.{
  proto_ticket_to_matchfunction_ticket, proto_backfill_ticket_to_matchfunction_backfill_ticket,
  added_ticket, matchfunction_backfill_proposal_to_proto_backfill_proposal,
}
use matchmaking_function_grp.Parties.{PartyMap}
use matchmaking_function_grp.Backfill.{Queues, contains}
use matchmaking_function_grp.Backfill.Once.{added}
use matchmaking_function_grp.Backfill.Allowed.{IsAllowed}
use matchmaking_function_grp.Backfill.Loop.{Phase}
use matchmaking_function_grp.Pipeline.{
  Received, message, eof, recv_error, Read, hands, passes, stops, crashes, Code, Handler, Steps,
  inputs, process, read_input,
}
use matchmaking_function_grp.Pipeline.Standing.{Answers}
use matchmaking_function_grp.Service.Call.{running_with}
use matchmaking_function_grp.Service.BackfillStream.Defs.{
  Input, match_ticket, backfill_ticket, read_backfill_request, hand_backfill_ticket,
  backfill_response, IsBackfillResponse, backfill_code,
}
use matchmaking_function_grp.Service.BackfillStream.Allowed.{process-IsAllowed}
use matchmaking_function_grp.Service.BackfillStream.Process.{backfill_loop-process}
use matchmaking_function_grp.Service.BackfillStream.Responses.{tickets_in, backfill_stream-prefix}
use matchmaking_function_grp.Service.BackfillStream.Call.{
  handle_backfill_matches, handle_backfill_matches-runs,
}

module _ (pie : Pie) (pb : Protobuf) (order : PartyMap → PartyMap) (uuid : ℕ → String) where
  abbrev Request : Type 0
  Request = BackfillMakeMatchesRequest pb.Struct pb.Timestamp

  abbrev Response : Type 0
  Response = BackfillResponse pb.Struct pb.Timestamp

  abbrev code : Code Request Input BackfillProposal Response Queues
  code = backfill_code pie pb order uuid

  -- The IDs of the tickets that responses add to sessions, in order.
  abbrev pub added_ids : List Response → List String
  added_ids [] = []
  added_ids (r ∷ rs) =
      map (λ (t : Proto.Ticket pb.Struct pb.Timestamp). t.ticket_id)
        r.backfill_proposal.added_tickets
      ++ added_ids rs

  -- The IDs of the tickets that the client sends, in order.
  abbrev pub sent_ids : List (Received Request) → List String
  sent_ids [] = []
  sent_ids (message (BackfillMakeMatchesRequest.ticket t) ∷ rest) = t.ticket_id ∷ sent_ids rest
  sent_ids (message (BackfillMakeMatchesRequest.backfill_ticket t) ∷ rest) = sent_ids rest
  sent_ids (message (BackfillMakeMatchesRequest.parameters p) ∷ rest) = sent_ids rest
  sent_ids (message BackfillMakeMatchesRequest.unset ∷ rest) = sent_ids rest
  sent_ids (eof ∷ rest) = sent_ids rest
  sent_ids (recv_error e ∷ rest) = sent_ids rest

  -- No ticket of the response excludes its session.
  abbrev pub AreAdmitted : Response → Type 0
  AreAdmitted r =
      All
        (λ (t : Proto.Ticket pb.Struct pb.Timestamp).
          contains t.excluded_sessions r.backfill_proposal.match_session_id ≡ false)
        r.backfill_proposal.added_tickets

  response_tickets :
      (o : BackfillProposal) (next : Option BackfillProposal) (r : Response)
      → IsBackfillResponse pie pb o next r
      → (r.backfill_proposal.added_tickets ≡ map (added_ticket pie pb) o.added_tickets)
        × (r.backfill_proposal.match_session_id ≡ o.match_session_id)
  unfolding backfill_response matchfunction_backfill_proposal_to_proto_backfill_proposal
  response_tickets o next r h = (
    ap (λ (x : Response). x.backfill_proposal.added_tickets) h.converted
        ∙ pie.pie_map_lem (added_ticket pie pb) o.added_tickets,
    ap (λ (x : Response). x.backfill_proposal.match_session_id) h.converted,
  )

  ids-added_ticket :
      (ts : List Ticket)
      → map
          (λ (t : Proto.Ticket pb.Struct pb.Timestamp). t.ticket_id)
          (map (added_ticket pie pb) ts)
        ≡ map (λ (t : Ticket). t.ticket_id) ts
  unfolding added_ticket
  ids-added_ticket [] = refl
  ids-added_ticket (t ∷ ts) = ap (◌∷◌ t.ticket_id) (ids-added_ticket ts)

  added_ids-Answers :
      (os : List BackfillProposal) (next : Option BackfillProposal) (rs : List Response)
      → Answers code os next rs
      → added_ids rs ≡ map (λ (t : Ticket). t.ticket_id) (added os)
  added_ids-Answers [] next [] h = refl
  added_ids-Answers [] next (r ∷ rs) h = absurd h
  added_ids-Answers (o ∷ os) next [] h = absurd h
  added_ids-Answers (o ∷ os) next (r ∷ rs) h =
      rw
        (
          (response_tickets o _ r h.0).0,
          ids-added_ticket o.added_tickets,
          added_ids-Answers os next rs h.1,
        )
        (sym (map-append (λ (t : Ticket). t.ticket_id) o.added_tickets (added os)))

  admitted :
      (session : String) (ts : List Ticket)
      → All (λ (t : Ticket). contains t.excluded_sessions session ≡ false) ts
      → All
          (λ (t : Proto.Ticket pb.Struct pb.Timestamp).
            contains t.excluded_sessions session ≡ false)
          (map (added_ticket pie pb) ts)
  unfolding added_ticket
  admitted session [] h = tt
  admitted session (t ∷ ts) h = (h.0, admitted session ts h.1)

  Answers-AreAdmitted :
      (os : List BackfillProposal) (next : Option BackfillProposal) (rs : List Response)
      → All IsAllowed os
      → Answers code os next rs
      → All AreAdmitted rs
  Answers-AreAdmitted [] next [] a h = tt
  Answers-AreAdmitted [] next (r ∷ rs) a h = absurd h
  Answers-AreAdmitted (o ∷ os) next [] a h = tt
  Answers-AreAdmitted (o ∷ os) next (r ∷ rs) a h = (
    rw ((response_tickets o _ r h.0).0, (response_tickets o _ r h.0).1)
        (admitted o.match_session_id o.added_tickets a.0),
    Answers-AreAdmitted os next rs a.1 h.1,
  )

  abbrev input_ids : List Input → List String
  input_ids is = map (λ (t : Ticket). t.ticket_id) (tickets_in is)

  result_ids :
      (r : Read Input) (is : List Input) (ids : List String)
      → ((t : Ticket) → r ≢ hands (match_ticket t))
      → Sublist (input_ids is) ids
      → Sublist (input_ids (read_input code r is)) ids
  result_ids (hands (match_ticket t)) is ids n h = absurd (n t refl)
  result_ids (hands (backfill_ticket b)) is ids n h = h
  result_ids passes is ids n h = h
  result_ids stops is ids n h = nil-sublist ids
  result_ids (crashes p) is ids n h = nil-sublist ids

  no_ticket :
      (r : Result DataObjects.BackfillTicket) (t : Ticket)
      → hand_backfill_ticket r ≢ hands (match_ticket t)
  no_ticket (ok b) t h = cc
  no_ticket (err e) t h = cc
  no_ticket (panic p) t h = cc

  input_ids-Sublist :
      (stream : List (Received Request))
      → Sublist (input_ids (inputs code stream)) (sent_ids stream)
  unfolding read_backfill_request proto_ticket_to_matchfunction_ticket
  input_ids-Sublist [] = nil-sublist []
  input_ids-Sublist (message (BackfillMakeMatchesRequest.ticket t) ∷ rest) =
      Sublist.cons-cons t.ticket_id (input_ids-Sublist rest)
  input_ids-Sublist (message (BackfillMakeMatchesRequest.backfill_ticket t) ∷ rest) =
      let r = proto_backfill_ticket_to_matchfunction_backfill_ticket pie pb t in
      result_ids (hand_backfill_ticket r) (inputs code rest) (sent_ids rest) (no_ticket r)
        (input_ids-Sublist rest)
  input_ids-Sublist (message (BackfillMakeMatchesRequest.parameters p) ∷ rest) =
      input_ids-Sublist rest
  input_ids-Sublist (message BackfillMakeMatchesRequest.unset ∷ rest) = input_ids-Sublist rest
  input_ids-Sublist (eof ∷ rest) = nil-sublist (sent_ids rest)
  input_ids-Sublist (recv_error e ∷ rest) = nil-sublist (sent_ids rest)

  -- After any steps of the goroutines that a call of `BackfillMatches` runs after its first
  -- message, in any order and also where a response could not be sent, the IDs of the tickets
  -- that the responses add to sessions are a part of the sequence of ticket IDs that the client
  -- sends, in its order, so that each ticket that is sent is answered at most once; and no
  -- response adds a ticket to a session that the ticket excludes.
  pub handle_backfill_matches-Sublist :
      (unmarshal : String → Result GameRules) (first : Received Request)
      (stream : List (Received Request)) (rule : GameRules)
      (s : Handler Request Input BackfillProposal Response Queues) (k : ℕ)
      (t : Handler Request Input BackfillProposal Response Queues)
      → handle_backfill_matches pie pb order uuid unmarshal (first ∷ stream) ≡ running_with rule s
      → Steps code s k t
      → Sublist (added_ids t.sent) (sent_ids stream) × All AreAdmitted t.sent
  handle_backfill_matches-Sublist unmarshal first stream rule s k t call path =
      let (text, e, read, checked, same) =
        (handle_backfill_matches-runs pie pb order uuid unmarshal first stream rule s).0 call in
      let (taken, later, proposals, others, came, answers, made, used) =
        backfill_stream-prefix pie pb order uuid stream k t
          (subst (λ x. Steps code x k t) same path) in
      let made' : (process code ([], [], 0) taken).sent ≡ proposals ++ others =
        sym (
          ap (λ (r : Run BackfillProposal Phase). r.sent)
            (backfill_loop-process pie pb order uuid taken ([], [], 0)))
        ∙ made in
      (
        subst (λ ids. Sublist ids (sent_ids stream))
            (sym (added_ids-Answers proposals (head? others) t.sent answers))
            (Sublist.trans (Sublist-map (λ (x : Ticket). x.ticket_id) used)
              (input_ids-Sublist stream)),
        Answers-AreAdmitted proposals (head? others) t.sent
            (All-append_left IsAllowed proposals others
              (subst (All IsAllowed) made' (process-IsAllowed pie pb order uuid ([], [], 0) taken)))
            answers,
      )
