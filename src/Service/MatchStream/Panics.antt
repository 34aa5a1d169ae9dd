-- ===== src/Service/MatchStream/Panics.antt =====
-- Which panics the goroutines of `MakeMatches` can meet, and on what account.
use matchmaking_function_grp.Prelude.{
  ℕ, ◌<◌, ◌≡◌, refl, ap, sym, ◌∙◌, String, Bool, false, inl, inr, List, [], ◌∷◌, ◌++◌,
}
use matchmaking_function_grp.External.{Pie, Protobuf}
use matchmaking_function_grp.Outcome.{Panic, nil_dereference, Ending, returns, panics}
use matchmaking_function_grp.DataObjects.{Ticket, Match}
use matchmaking_function_grp.Proto.{MakeMatchesRequest, MatchResponse}
use matchmaking_function_grp.Matching.Limits.{Numbers, rules_of, Fits, IsOrdered, min_players}
use matchmaking_function_grp.Pipeline.{
  Received, message, eof, recv_error, crashes, Handler, Steps, Crash, start,
}
use matchmaking_function_grp.Pipeline.Panics.{Steps-Crash}
use matchmaking_function_grp.Service.Matches.{is_ticket}
use matchmaking_function_grp.Service.MatchStream.Defs.{read_match_request, match_code}
use matchmaking_function_grp.Service.MatchStream.Responses.{survives}

returns-panics :
    {q : List Ticket × ℕ} {p : Panic}
    → ◌≡◌ {A = Ending (List Ticket × ℕ)} (returns q) (panics p)
    → ⊥
returns-panics h = cc

module _ (pie : Pie) (pb : Protobuf) (uuid : ℕ → String) (n : Numbers) (auto : Bool) where
  abbrev Request : Type 0
  Request = MakeMatchesRequest pb.Struct pb.Timestamp

  abbrev Response : Type 0
  Response = MatchResponse pb.Struct pb.Timestamp

  -- The message is no ticket.
  IsOther : Received Request → Type 0
  IsOther r = (request : Request) × (r ≡ message request) × (is_ticket pie pb request ≡ false)

  read-crashes :
      (r : Received Request) (p : Panic)
      → read_match_request pie pb r ≡ crashes p
      → (p ≡ nil_dereference) × IsOther r
  unfolding read_match_request IsOther
  read-crashes (message (MakeMatchesRequest.ticket t)) p h = cc
  read-crashes (message (MakeMatchesRequest.parameters q)) p h = (cc, (_, refl, refl))
  read-crashes (message MakeMatchesRequest.unset) p h = (cc, (_, refl, refl))
  read-crashes eof p h = cc
  read-crashes (recv_error e) p h = cc

  -- For rules in which no number is negative and no minimum is above its maximum, whose
  -- products fit into an `int` and whose minimum of players is positive: if after any steps a
  -- goroutine of `MakeMatches` is about to panic, then with a nil dereference, and there is a
  -- message in the stream that is no ticket.
  pub match_stream-Crash :
      (fits : Fits n) (ordered : IsOrdered n) (positive : 0 < min_players n)
      (stream : List (Received Request)) (k : ℕ)
      (s : Handler Request Ticket Match Response (List Ticket × ℕ))
      → Steps
          (match_code pie pb uuid (rules_of n auto))
          (start (match_code pie pb uuid (rules_of n auto)) ([], 0) stream)
          k
          s
      → (p : Panic) → Crash (match_code pie pb uuid (rules_of n auto)) s p
      → (p ≡ nil_dereference)
        × (before : List (Received Request)) × (request : Request) × (behind : List
            (Received Request))
        × (stream ≡ before ++ message request ∷ behind)
        × (is_ticket pie pb request ≡ false)
  unfolding IsOther
  match_stream-Crash fits ordered positive stream k s path p crash =
      elim (Steps-Crash (match_code pie pb uuid (rules_of n auto)) ([], 0) stream path crash) [
        | inl f ↦
            let (same, (request, e, other)) = read-crashes f.fatal p f.panics_with in
            (
              same,
              f.before,
              request,
              f.behind,
              f.stands ∙ ap (λ r. f.before ++ r ∷ f.behind) e,
              other,
            )
        | inr o ↦
            let (q, back) =
              survives pie pb uuid n auto fits ordered positive stream o.taken o.later o.came in
            absurd (returns-panics (sym back ∙ o.stands))
      ]
