-- ===== src/Service/BackfillStream/Responses.antt =====
-- What the client of `BackfillMatches` gets, in whatever order the goroutines run.
use matchmaking_function_grp.Prelude.{
  ℕ, ◌+◌, ◌*◌, ◌≤◌, ◌≡◌, refl, ap, sym, subst, ◌∙◌, String, true, none, some, List, [], ◌∷◌, ◌++◌,
  map, length, All, All-append_left, arith,
}
use mathlib.Core.List.{head?, Sublist, sublist-append_left, append_assoc}
use mathlib.Core.List.Sublist
use matchmaking_function_grp.External.{Pie, Protobuf, MakesMaps}
use matchmaking_function_grp.Outcome.{Panic, ok, err, Error, Ending, Run}
use matchmaking_function_grp.DataObjects.{Ticket, BackfillProposal}
use matchmaking_function_grp.Rules.{RuleSet, game_rules}
use matchmaking_function_grp.Matching.Limits.{rules_of}
use matchmaking_function_grp.Proto.{BackfillMakeMatchesRequest, BackfillResponse}
use matchmaking_function_grp.Parties.{PartyMap}
use matchmaking_function_grp.Backfill.{Queues}
use matchmaking_function_grp.Backfill.Loop.{Phase, backfill_loop, backfill_matches}
use matchmaking_function_grp.Backfill.Once.{added, tickets_of, backfill_matches-Sublist}
use matchmaking_function_grp.Pipeline.{
  Received, Code, Handler, sending, Sender, ranging, responding, finished, Crash, Steps, start,
  inputs, process,
}
use matchmaking_function_grp.Pipeline.Standing.{to_come, HasFailed, Answers}
use matchmaking_function_grp.Pipeline.Refinement.{
  Steps-Refines, start-Refines, IsDone-sent, sent-prefix,
}
use matchmaking_function_grp.Pipeline.Bounds.{Steps-le, length-inputs}
use matchmaking_function_grp.Pipeline.Progress.{Closes, Survives, Ends, Steps-Ends, Steps-not-Crash}
use matchmaking_function_grp.Pipeline.Failure.{IsAbandoned, Steps-IsAbandoned}
use matchmaking_function_grp.Service.BackfillStream.Defs.{
  Input, match_ticket, backfill_ticket, backfill_code, sender_result, backfill_matches_returned,
}
pub use matchmaking_function_grp.Service.BackfillStream.Process.{as_event}
pub use matchmaking_function_grp.Service.BackfillStream.Survival.{IsUnrestricted}
use matchmaking_function_grp.Service.BackfillStream.Process.{backfill_loop-process, length-process}
use matchmaking_function_grp.Service.BackfillStream.Survival.{
  IsFree, unrestricted-IsFree, inputs-IsMapped, process-Lives,
}

abbrev pub tickets_in : List Input → List Ticket
tickets_in [] = []
tickets_in (match_ticket t ∷ is) = t ∷ tickets_in is
tickets_in (backfill_ticket b ∷ is) = tickets_in is

tickets_of-map : (is : List Input) → tickets_of (map as_event is) ≡ tickets_in is
tickets_of-map [] = refl
tickets_of-map (match_ticket t ∷ is) = ap (◌∷◌ t) (tickets_of-map is)
tickets_of-map (backfill_ticket b ∷ is) = tickets_of-map is

tickets_in-append : (is js : List Input) → tickets_in (is ++ js) ≡ tickets_in is ++ tickets_in js
tickets_in-append [] js = refl
tickets_in-append (match_ticket t ∷ is) js = ap (◌∷◌ t) (tickets_in-append is js)
tickets_in-append (backfill_ticket b ∷ is) js = tickets_in-append is js

added-append : (xs ys : List BackfillProposal) → added (xs ++ ys) ≡ added xs ++ added ys
added-append [] ys = refl
added-append (x ∷ xs) ys =
    rw (added-append xs ys) (sym (append_assoc x.added_tickets (added xs) (added ys)))

result-finished :
    {Out : Type 0} (sender : Sender Out)
    → sender_result sender ≡ some (ok tt)
    → sender ≡ finished none
result-finished ranging h = cc
result-finished (responding o) h = cc
result-finished (finished none) h = refl
result-finished (finished (some e)) h = cc

-- The code does not read the rules.
abbrev some_rules : RuleSet
some_rules = game_rules (
    rules_of
      (record {
        teams_min = 0;
        teams_max = 0;
        players_min = 0;
        players_max = 0;
        ships_min = 0;
        ships_max = 0;
      })
      true)

module _ (pie : Pie) (pb : Protobuf) (order : PartyMap → PartyMap) (uuid : ℕ → String)
    (stream : List (Received (BackfillMakeMatchesRequest pb.Struct pb.Timestamp))) where
  abbrev Request : Type 0
  Request = BackfillMakeMatchesRequest pb.Struct pb.Timestamp

  abbrev Response : Type 0
  Response = BackfillResponse pb.Struct pb.Timestamp

  abbrev code : Code Request Input BackfillProposal Response Queues
  code = backfill_code pie pb order uuid

  abbrev empty : Queues
  empty = ([], [], 0)

  process-Sublist : (is : List Input) → Sublist (added (process code empty is).sent) (tickets_in is)
  unfolding backfill_matches
  process-Sublist is = subst (Sublist _) (tickets_of-map is) (
      subst
        (λ (r : Run BackfillProposal Phase). Sublist (added r.sent) (tickets_of (map as_event is)))
        (backfill_loop-process pie pb order uuid is empty)
        (backfill_matches-Sublist pie order uuid 0 some_rules (map as_event is) _ refl))

  -- After any steps of the goroutines of `BackfillMatches`, in any order and also where a
  -- response could not be sent, the responses that were sent are those of the first proposals
  -- that the worker alone makes of a beginning of the inputs, one for each and in order, where
  -- a response may hold the teams or attributes of the next proposal instead, if that is for
  -- the same backfill ticket; and the tickets that they add are a part of the sequence of
  -- tickets that came.
  pub backfill_stream-prefix :
      (k : ℕ) (s : Handler Request Input BackfillProposal Response Queues)
      → Steps code (start code empty stream) k s
      → (taken : List Input) × (later : List Input) × (proposals : List BackfillProposal)
        × (others : List BackfillProposal) × (taken ++ later ≡ inputs code stream)
        × Answers code proposals (head? others) s.sent
        × ((backfill_loop pie order uuid (map as_event taken) true true empty).sent
            ≡ proposals ++ others)
        × Sublist (added proposals) (tickets_in (inputs code stream))
  backfill_stream-prefix k s path =
      let f = Steps-Refines code path (start-Refines code empty stream) in
      let (taken, later, answered, others, came, made, sent) = sent-prefix code f in
      (
        taken,
        later,
        answered,
        others,
        came,
        sent,
        ap (λ (r : Run BackfillProposal Phase). r.sent)
              (backfill_loop-process pie pb order uuid taken empty)
            ∙ made,
        subst (Sublist (added answered)) (sym (tickets_in-append taken later) ∙ ap tickets_in came)
            (Sublist.trans
              (subst (Sublist (added answered))
                (sym (added-append answered others) ∙ ap added (sym made))
                (sublist-append_left (added answered) (added others)))
              (Sublist.trans (process-Sublist taken)
                (sublist-append_left (tickets_in taken) (tickets_in later)))),
      )

  -- If after any steps of its goroutines `BackfillMatches` returns with no error, then its
  -- responses are those of the proposals that the worker alone makes of all inputs, one for
  -- each and in order, where a response may hold the teams or attributes of the next proposal
  -- instead, if that is for the same backfill ticket.
  pub backfill_stream-done :
      (k : ℕ) (s : Handler Request Input BackfillProposal Response Queues)
      → Steps code (start code empty stream) k s
      → backfill_matches_returned s ≡ some (ok tt)
      → Answers code
          (backfill_loop pie order uuid (map as_event (inputs code stream)) true true empty).sent
          none
          s.sent
  unfolding backfill_matches_returned
  backfill_stream-done k s path returned =
      let f = Steps-Refines code path (start-Refines code empty stream) in
      let end = result-finished s.sender returned in
      let (v, stood) = f.finished_late end in
      subst (λ (r : Run BackfillProposal Phase). Answers code r.sent none s.sent)
        (sym (backfill_loop-process pie pb order uuid (inputs code stream) empty))
        (IsDone-sent code f (record { reader_done = f.closed_late v stood; sender_done = end }))

  -- The goroutines of `BackfillMatches` make, in whatever order, at most seven steps for each
  -- message of the stream and three more.
  pub backfill_stream_steps :
      (k : ℕ) (s : Handler Request Input BackfillProposal Response Queues)
      → Steps code (start code empty stream) k s
      → k ≤ 7 * length stream + 3
  backfill_stream_steps k s path = omega (
    arith,
    Steps-le code path,
    length-process pie pb order uuid empty (inputs code stream),
    length-inputs code stream,
  )

  module _ (maps : MakesMaps pb) (unrestricted : All IsUnrestricted (inputs code stream)) where
    survives : Survives code empty (inputs code stream)
    survives taken later e = process-Lives pie pb order uuid empty taken tt tt (
        All-append_left IsFree taken later (
          subst (All IsFree) (sym e) (
            unrestricted-IsFree (inputs code stream) (inputs-IsMapped pie pb maps order uuid stream)
              unrestricted)))

    -- If `AsMap` of structpb always makes a map, no ticket of the stream has excluded sessions,
    -- the stream ends and no message before its end makes the reader panic: from whatever the
    -- goroutines of `BackfillMatches` have got to, with no response that has failed to be sent,
    -- some steps lead to their end, with a response for each proposal.
    pub backfill_stream-Ends :
        (k : ℕ) (s : Handler Request Input BackfillProposal Response Queues)
        → Steps code (start code empty stream) k s
        → Closes code stream
        → (¬ HasFailed s.sender)
        → Ends code empty stream s
    backfill_stream-Ends k s path c well = Steps-Ends code empty stream path c survives well

    -- If `AsMap` of structpb always makes a map, no ticket of the stream has excluded sessions,
    -- the stream ends and no message before its end makes the reader panic, then no goroutine
    -- of `BackfillMatches` is ever about to panic.
    pub backfill_stream-not-Crash :
        (k : ℕ) (s : Handler Request Input BackfillProposal Response Queues)
        → Steps code (start code empty stream) k s
        → Closes code stream
        → (p : Panic) → ¬ Crash code s p
    backfill_stream-not-Crash k s path c p crash =
        Steps-not-Crash code empty stream path c survives crash

-- Once a response has failed to be sent and the worker of `BackfillMatches` wants to send
-- another proposal, then whatever the goroutines do afterwards, the call has returned the error
-- of `Send`, the worker still waits with that proposal, and of the inputs that are still to
-- come it gets none.
pub backfill_stream_leaks :
    (pie : Pie) (pb : Protobuf) (order : PartyMap → PartyMap) (uuid : ℕ → String)
    (o : BackfillProposal) (os : List BackfillProposal) (e : Ending Queues) (x : Error)
    (s : Handler
      (BackfillMakeMatchesRequest pb.Struct pb.Timestamp)
      Input
      BackfillProposal
      (BackfillResponse pb.Struct pb.Timestamp)
      Queues)
    → IsAbandoned (backfill_code pie pb order uuid) o os e x s
    → (k : ℕ)
      (t : Handler
        (BackfillMakeMatchesRequest pb.Struct pb.Timestamp)
        Input
        BackfillProposal
        (BackfillResponse pb.Struct pb.Timestamp)
        Queues)
    → Steps (backfill_code pie pb order uuid) s k t
    → (backfill_matches_returned t ≡ some (err x))
      × (t.worker ≡ sending (o ∷ os) e)
      × (to_come (backfill_code pie pb order uuid) t.reader
          ≡ to_come (backfill_code pie pb order uuid) s.reader)
unfolding backfill_matches_returned
backfill_stream_leaks pie pb order uuid o os e x s a k t path =
    let code = backfill_code pie pb order uuid in
    let (b, same, sent) = Steps-IsAbandoned code path a in
    (ap sender_result b.sender_failed, b.worker_waits, same)
