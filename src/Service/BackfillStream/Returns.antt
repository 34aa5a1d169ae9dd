-- ===== src/Service/BackfillStream/Returns.antt =====
-- What a whole call of `BackfillMatches` answers, and that it returns.
use matchmaking_function_grp.Prelude.{
  ℕ, ◌≡◌, refl, sym, subst, String, true, none, some, List, [], ◌∷◌, All,
}
use matchmaking_function_grp.External.{Pie, Protobuf, MakesMaps}
use matchmaking_function_grp.Outcome.{Result, ok, Run}
use matchmaking_function_grp.DataObjects.{BackfillProposal}
use matchmaking_function_grp.Rules.{GameRules, game_rules}
use matchmaking_function_grp.Proto.{BackfillMakeMatchesRequest, BackfillResponse}
use matchmaking_function_grp.Parties.{PartyMap}
use matchmaking_function_grp.Backfill.{Queues}
use matchmaking_function_grp.Backfill.Loop.{Phase, backfill_loop, backfill_matches}
use matchmaking_function_grp.Logic.{match_maker}
use matchmaking_function_grp.Pipeline.{Received, Code, Handler, Steps, inputs}
use matchmaking_function_grp.Pipeline.Standing.{HasFailed, Answers}
use matchmaking_function_grp.Pipeline.Refinement.{IsDone}
use matchmaking_function_grp.Pipeline.Progress.{Closes, Steps-trans}
use matchmaking_function_grp.Service.Streams.{fetch_backfill_tickets}
use matchmaking_function_grp.Service.Call.{running_with}
use matchmaking_function_grp.Service.BackfillStream.Defs.{
  Input, backfill_code, backfill_matches_returned,
}
use matchmaking_function_grp.Service.BackfillStream.Responses.{
  IsUnrestricted, backfill_stream-done, backfill_stream-Ends,
}
use matchmaking_function_grp.Service.BackfillStream.Call.{
  handle_backfill_matches, handle_backfill_matches-runs, sent_of-fetch,
}

module _ (pie : Pie) (pb : Protobuf) (order : PartyMap → PartyMap) (uuid : ℕ → String)
    (unmarshal : String → Result GameRules) where
  abbrev Request : Type 0
  Request = BackfillMakeMatchesRequest pb.Struct pb.Timestamp

  abbrev Response : Type 0
  Response = BackfillResponse pb.Struct pb.Timestamp

  abbrev code : Code Request Input BackfillProposal Response Queues
  code = backfill_code pie pb order uuid

  -- `BackfillMatches` of `MatchMaker`, given all that `fetchBackfillTickets` writes for it, sends
  -- proposals whose responses these are.
  pub record IsAnswered (rule : GameRules) (stream : List (Received Request)) (sent : List Response)
      : Type 0 where
    pub run : Run BackfillProposal Phase
    pub made :
        (match_maker pie order uuid unmarshal).backfill_matches_of 0
          (game_rules rule)
          (fetch_backfill_tickets pie pb stream).events
        ≡ some run
    pub answers : Answers code run.sent none sent

  -- If a call of `BackfillMatches` runs its goroutines after the first message, and after any
  -- steps of them it returns with no error, then `BackfillMatches` of `MatchMaker`, given what
  -- `fetchBackfillTickets` writes to the channels for the rest of the stream, is no nil
  -- channel, and the responses are those of the proposals that it sends, one for each and in
  -- order; each holds the teams and attributes of its proposal or, if the next proposal is for
  -- the same backfill ticket, perhaps those of that one.
  pub handle_backfill_matches_lem :
      (first : Received Request) (stream : List (Received Request)) (rule : GameRules)
      (s : Handler Request Input BackfillProposal Response Queues) (k : ℕ)
      (t : Handler Request Input BackfillProposal Response Queues)
      → handle_backfill_matches pie pb order uuid unmarshal (first ∷ stream) ≡ running_with rule s
      → Steps code s k t
      → backfill_matches_returned t ≡ some (ok tt)
      → IsAnswered rule stream t.sent
  unfolding match_maker backfill_matches
  handle_backfill_matches_lem first stream rule s k t call path back =
      let (text, e, read, checked, same) =
        (handle_backfill_matches-runs pie pb order uuid unmarshal first stream rule s).0 call in
      record {
        run =
            backfill_loop pie order uuid (fetch_backfill_tickets pie pb stream).events true true
              ([], [], 0);
        made = refl;
        answers =
            subst (λ proposals. Answers code proposals none t.sent)
              (sym (sent_of-fetch pie pb order uuid stream ([], [], 0)))
              (backfill_stream-done pie pb order uuid stream k t
                (subst (λ x. Steps code x k t) same path) back);
      }

  done-returned :
      {u : Handler Request Input BackfillProposal Response Queues}
      → IsDone code u
      → backfill_matches_returned u ≡ some (ok tt)
  unfolding backfill_matches_returned
  done-returned done = rw done.sender_done refl

  -- If `AsMap` of structpb always makes a map, no ticket behind the first message has excluded
  -- sessions, the stream ends, no message before its end makes the reader panic, and a call of
  -- `BackfillMatches` runs its goroutines after the first message: then from whatever these
  -- have got to, with no response that has failed to be sent, some steps lead to a return with
  -- no error, with responses to the proposals that `BackfillMatches` of `MatchMaker` makes of
  -- what `fetchBackfillTickets` writes, one for each and in order.
  pub handle_backfill_matches-returns :
      (maps : MakesMaps pb) (first : Received Request) (stream : List (Received Request))
      (rule : GameRules) (s : Handler Request Input BackfillProposal Response Queues) (k : ℕ)
      (t : Handler Request Input BackfillProposal Response Queues)
      → All IsUnrestricted (inputs code stream)
      → Closes code stream
      → handle_backfill_matches pie pb order uuid unmarshal (first ∷ stream) ≡ running_with rule s
      → Steps code s k t
      → (¬ HasFailed t.sender)
      → (j : ℕ) × (u : Handler Request Input BackfillProposal Response Queues) × Steps code t j u
        × (backfill_matches_returned u ≡ some (ok tt))
        × IsAnswered rule stream u.sent
  handle_backfill_matches-returns maps first stream rule s k t unrestricted closes call path well =
      let (text, e, read, checked, same) =
        (handle_backfill_matches-runs pie pb order uuid unmarshal first stream rule s).0 call in
      let end =
        backfill_stream-Ends pie pb order uuid stream maps unrestricted k t
          (subst (λ x. Steps code x k t) same path) closes well in
      let (m, whole) = Steps-trans code path end.path in
      let back = done-returned end.done in
      (
        end.steps,
        end.last,
        end.path,
        back,
        handle_backfill_matches_lem first stream rule s m end.last call whole back,
      )
