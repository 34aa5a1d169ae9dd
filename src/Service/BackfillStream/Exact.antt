-- ===== src/Service/BackfillStream/Exact.antt =====
-- When the responses of `BackfillMatches` hold what its proposals held when they were made.
use matchmaking_function_grp.Prelude.{
  ℕ, ◌≡◌, ◌≢◌, ◌⊎◌, inl, inr, ◌∙◌, String, true, Option, none, some, List, [], ◌∷◌, map,
}
use matchmaking_function_grp.External.{Pie, Protobuf}
use matchmaking_function_grp.Outcome.{ok}
use matchmaking_function_grp.DataObjects.{BackfillProposal}
use matchmaking_function_grp.Proto.{BackfillMakeMatchesRequest, BackfillResponse}
use matchmaking_function_grp.Parties.{PartyMap}
use matchmaking_function_grp.Backfill.{Queues}
use matchmaking_function_grp.Backfill.Loop.{backfill_loop}
use matchmaking_function_grp.Pipeline.{Received, Handler, Steps, start, inputs}
use matchmaking_function_grp.Pipeline.Standing.{Answers-map, Determines}
use matchmaking_function_grp.Service.BackfillStream.Defs.{
  Input, Shares, backfill_response, IsBackfillResponse, backfill_code, backfill_matches_returned,
}
use matchmaking_function_grp.Service.BackfillStream.Process.{as_event}
use matchmaking_function_grp.Service.BackfillStream.Responses.{backfill_stream-done}

-- No two proposals in a row are for the same backfill ticket.
abbrev pub Alternate : List BackfillProposal → Type 0
Alternate [] = Unit
Alternate (o ∷ []) = Unit
Alternate (o ∷ p ∷ os) = (p.backfill_ticket_id ≢ o.backfill_ticket_id) × Alternate (p ∷ os)

abbrev Differs : BackfillProposal → Option BackfillProposal → Type 0
Differs o none = Unit
Differs o (some p) = p.backfill_ticket_id ≢ o.backfill_ticket_id

own_value :
    {A : Type 0} {a b : A} (o : BackfillProposal) (next : Option BackfillProposal)
    (P : BackfillProposal → Type 0)
    → Differs o next
    → (a ≡ b) ⊎ Shares o next P
    → a ≡ b
own_value o next P other (inl h) = h
own_value o none P other (inr h) = absurd h
own_value o (some p) P other (inr h) = absurd (other h.0)

module _ (pie : Pie) (pb : Protobuf) (order : PartyMap → PartyMap) (uuid : ℕ → String) where
  -- A proposal whose successor is for another backfill ticket has one response.
  own_response :
      (o : BackfillProposal) (next : Option BackfillProposal)
      (r : BackfillResponse pb.Struct pb.Timestamp)
      → Differs o next
      → IsBackfillResponse pie pb o next r
      → r ≡ backfill_response pie pb o
  own_response o next r other h =
      h.converted
      ∙ cc (own_value o next _ other h.teams_held, own_value o next _ other h.attributes_held)

  Alternate-Determines :
      (os : List BackfillProposal)
      → Alternate os
      → Determines (backfill_code pie pb order uuid) (backfill_response pie pb) os none
  Alternate-Determines [] h = tt
  Alternate-Determines (o ∷ []) h = (λ r g. own_response o none r tt g, tt)
  Alternate-Determines (o ∷ p ∷ os) h =
      (λ r g. own_response o (some p) r h.0 g, Alternate-Determines (p ∷ os) h.1)

  -- If after any steps of its goroutines `BackfillMatches` returns with no error, and among the
  -- proposals that the worker alone makes of all inputs no two in a row are for the same
  -- backfill ticket, then its responses are these proposals as the worker made them, converted
  -- one for each and in order.
  pub backfill_stream-exact :
      (stream : List (Received (BackfillMakeMatchesRequest pb.Struct pb.Timestamp))) (k : ℕ)
      (s : Handler
        (BackfillMakeMatchesRequest pb.Struct pb.Timestamp)
        Input
        BackfillProposal
        (BackfillResponse pb.Struct pb.Timestamp)
        Queues)
      → Steps
          (backfill_code pie pb order uuid)
          (start (backfill_code pie pb order uuid) ([], [], 0) stream)
          k
          s
      → backfill_matches_returned s ≡ some (ok tt)
      → Alternate
          (backfill_loop pie order uuid
            (map as_event (inputs (backfill_code pie pb order uuid) stream))
            true
            true
            ([], [], 0)).sent
      → s.sent
        ≡ map
            (backfill_response pie pb)
            (backfill_loop pie order uuid
              (map as_event (inputs (backfill_code pie pb order uuid) stream))
              true
              true
              ([], [], 0)).sent
  backfill_stream-exact stream k s path returned alternate =
      let code = backfill_code pie pb order uuid in
      Answers-map code (backfill_response pie pb) _ none s.sent (Alternate-Determines _ alternate)
        (backfill_stream-done pie pb order uuid stream k s path returned)
