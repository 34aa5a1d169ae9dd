-- ===== src/Examples/Backfill.antt =====
-- `buildBackfillMatch` on small inputs.
use matchmaking_function_grp.Prelude.{List, true, ◌≡◌, refl, none, some, [], ◌∷◌}
use matchmaking_function_grp.Value.{end}
use matchmaking_function_grp.External.{plain_pie}
use matchmaking_function_grp.Outcome.{panics, index_out_of_range}
use matchmaking_function_grp.Backfill.{is_excluded, build_backfill_match}
use matchmaking_function_grp.Backfill.Pairs.{Proposes, build_backfill_match-Proposes}
use matchmaking_function_grp.Backfill.Remaining.{remaining, build_backfill_match-EndsAs}
use matchmaking_function_grp.DataObjects.{BackfillProposal}
use matchmaking_function_grp.Outcome.{Run}
use matchmaking_function_grp.Rules.{game_rules}
use matchmaking_function_grp.Matching.Limits.{rules_of}
use matchmaking_function_grp.Backfill.Loop.{
  Event, ticket_received, tickets_closed, backfill_ticket_received, backfill_tickets_closed, Phase,
  backfill_loop, backfill_matches,
}
use matchmaking_function_grp.Backfill.Once.{added, backfill_matches-Sublist}
use mathlib.Core.List.{Sublist}
use matchmaking_function_grp.Examples.Data.{uuids, solo, session, two_to_three}

-- The second ticket may not go back to the second session.
build_backfill_match-Proposes_example :
    Proposes
      (λ m. m)
      ((session "s", solo "a" []) ∷ [])
      (build_backfill_match plain_pie
        (λ m. m)
        uuids
        0
        (some (solo "b" ("t" ∷ [])))
        none
        (solo "a" [] ∷ [])
        (session "s" ∷ session "t" ∷ [])).sent
unfolding is_excluded
build_backfill_match-Proposes_example =
    build_backfill_match-Proposes plain_pie (λ m. m) uuids 0 (some (solo "b" ("t" ∷ []))) none
      (solo "a" [] ∷ []) (session "s" ∷ session "t" ∷ []) ((end, refl), ((end, refl), tt))

-- One ticket that is excluded from the first of two waiting sessions.
build_backfill_match-EndsAs_example :
    (build_backfill_match plain_pie
      (λ m. m)
      uuids
      0
      (some (solo "a" ("s" ∷ [])))
      none
      []
      (session "s" ∷ session "t" ∷ [])).ending
    ≡ panics index_out_of_range
unfolding is_excluded
build_backfill_match-EndsAs_example =
    build_backfill_match-EndsAs plain_pie (λ m. m) uuids 0 (some (solo "a" ("s" ∷ []))) none []
      (session "s" ∷ session "t" ∷ []) ((end, refl), ((end, refl), tt))

-- The second session stays.
takes_first :
    remaining (session "s" ∷ session "t" ∷ []) (solo "a" [] ∷ []) ≡ some ([], session "t" ∷ [])
unfolding is_excluded
takes_first = refl

-- The session stays and the ticket is lost.
loses_ticket : remaining (session "s" ∷ []) (solo "a" ("s" ∷ []) ∷ []) ≡ some ([], session "s" ∷ [])
unfolding is_excluded
loses_ticket = refl

-- The session stays although it has got the first ticket.
keeps_session :
    remaining (session "s" ∷ []) (solo "a" [] ∷ solo "b" [] ∷ [])
    ≡ some (solo "b" [] ∷ [], session "s" ∷ [])
keeps_session = refl

abbrev arrivals : List Event
arrivals =
    ticket_received (solo "a" [])
    ∷ backfill_ticket_received (session "s")
    ∷ tickets_closed
    ∷ backfill_tickets_closed
    ∷ []

abbrev the_run : Run BackfillProposal Phase
the_run = backfill_loop plain_pie (λ m. m) uuids arrivals true true ([], [], 0)

runs :
    backfill_matches plain_pie (λ m. m) uuids 0 (game_rules (rules_of two_to_three true)) arrivals
    ≡ some the_run
unfolding backfill_matches
runs = refl

backfill_matches-Sublist_example : Sublist (added the_run.sent) (solo "a" [] ∷ [])
backfill_matches-Sublist_example =
    backfill_matches-Sublist plain_pie (λ m. m) uuids 0 (game_rules (rules_of two_to_three true))
      arrivals the_run runs
