-- ===== src/Examples/Matching.antt =====
-- `buildMatch` and `MakeMatches` on small inputs.
use matchmaking_function_grp.Prelude.{
  pos, negsuc, String, map, ◌≡◌, refl, true, false, some, List, [], ◌∷◌, arith, mul_int,
}
use matchmaking_function_grp.External.{plain_pie}
use matchmaking_function_grp.Outcome.{Run, ok, returns, panics, make_len_out_of_range}
use matchmaking_function_grp.DataObjects.{Match}
use matchmaking_function_grp.Rules.{GameRules, game_rules, check_rules}
use matchmaking_function_grp.Matching.{
  Event, ticket_received, tickets_closed, Phase, closed, player_bounds, build_loop, build_match,
  match_loop, make_matches, one_match,
}
use matchmaking_function_grp.Matching.Limits.{rules_of, Fits, player_bounds-HasBounds}
use matchmaking_function_grp.Matching.Build.{Serves, build_match-Serves}
use matchmaking_function_grp.Matching.Stream.{Groups, make_matches-Groups}
use matchmaking_function_grp.Matching.Defects.{Spins, zero_min-Spins}
use matchmaking_function_grp.Matching.Products.{
  least_team, largest_team, scaled_bound, NoOverflow, player_bounds-NoOverflow,
}
use matchmaking_function_grp.Matching.Endings.{Ends, build_match-Ends}
use matchmaking_function_grp.Examples.Data.{uuids, solo, two_to_three, up_to_two}

abbrev arrivals : List Event
arrivals =
    ticket_received (solo "a" [])
    ∷ ticket_received (solo "b" [])
    ∷ ticket_received (solo "c" [])
    ∷ tickets_closed
    ∷ []

-- Two tickets make a match and the third is left.
three_arrive :
    (match_loop plain_pie uuids (rules_of two_to_three true) 0 [] arrivals).ending
    ≡ returns (closed (solo "c" [] ∷ []) 1)
unfolding match_loop build_match build_loop player_bounds mul_int
three_arrive = refl

two_to_three-Fits : Fits two_to_three
two_to_three-Fits = omega arith

build_match-Serves_example :
    Serves true 2 3 0
      (solo "a" [] ∷ solo "b" [] ∷ [])
      (build_match plain_pie uuids (rules_of two_to_three true) 0 (solo "b" []) (solo "a" [] ∷ []))
build_match-Serves_example =
    build_match-Serves plain_pie uuids (rules_of two_to_three true) 2 3 0 (solo "b" [])
      (solo "a" [] ∷ []) (player_bounds-HasBounds two_to_three true two_to_three-Fits) (omega arith)
      (omega arith)

make_matches-Groups_example :
    (run : Run Match Phase) × (make_matches plain_pie uuids 0
        (game_rules (rules_of two_to_three true))
        arrivals
      ≡ some run)
    × Groups (rules_of two_to_three true) 2 3 0 [] arrivals run
make_matches-Groups_example =
    make_matches-Groups plain_pie uuids two_to_three true 0 arrivals two_to_three-Fits (omega arith)
      (omega arith)

zero_min-Spins_example : Spins 5 (
    build_loop plain_pie uuids false
      (player_bounds (rules_of up_to_two false)).0
      (player_bounds (rules_of up_to_two false)).1
      5
      0
      (solo "a" [] ∷ []))
zero_min-Spins_example =
    zero_min-Spins plain_pie uuids (rules_of up_to_two false) 2 0 5 (solo "a" [] ∷ [])
      (player_bounds-HasBounds up_to_two false (omega arith)) (omega arith)

-- One team of at least -1 players, and at most two.
abbrev negative_rules : GameRules
negative_rules = record {
  ship_count_min = pos 0;
  ship_count_max = pos 0;
  auto_backfill = false;
  alliance_rule = record {
    min_number = negsuc 0;
    max_number = pos 2;
    player_min_number = pos 1;
    player_max_number = pos 1;
  };
}

build_match-Ends_example :
    Ends plain_pie uuids false
      (player_bounds negative_rules).0
      (player_bounds negative_rules).1
      (solo "a" [] ∷ [])
      (build_match plain_pie uuids negative_rules 0 (solo "a" []) [])
build_match-Ends_example = build_match-Ends plain_pie uuids negative_rules 0 (solo "a" []) []

-- The call of the example above panics and sends nothing.
negative_rules-panics :
    build_match plain_pie uuids negative_rules 0 (solo "a" []) []
    ≡ record { sent = []; ending = panics make_len_out_of_range }
unfolding build_match build_loop one_match player_bounds mul_int
negative_rules-panics = refl

-- At least 6 tickets, the product of -2 and -3, and at most one.
abbrev low_rules : GameRules
low_rules = record {
  ship_count_min = pos 0;
  ship_count_max = pos 0;
  auto_backfill = false;
  alliance_rule = record {
    min_number = negsuc 1;
    max_number = pos 1;
    player_min_number = negsuc 2;
    player_max_number = pos 1;
  };
}

low_rules-bounds : player_bounds low_rules ≡ (pos 6, pos 1)
unfolding player_bounds mul_int
low_rules-bounds = refl

low_rules-accepted : check_rules low_rules ≡ ok (game_rules low_rules)
unfolding check_rules
low_rules-accepted = refl

low_rules-NoOverflow : NoOverflow low_rules
low_rules-NoOverflow = omega arith

player_bounds-NoOverflow_example : player_bounds low_rules ≡ (
  scaled_bound low_rules (least_team low_rules) low_rules.ship_count_min,
  scaled_bound low_rules (largest_team low_rules) low_rules.ship_count_max,
)
player_bounds-NoOverflow_example = player_bounds-NoOverflow low_rules low_rules-NoOverflow

abbrev letters : List String
letters = "a" ∷ "b" ∷ "c" ∷ "d" ∷ "e" ∷ []

-- The sixth ticket makes a match of the first ticket alone.
low_rules-match :
    map
      (λ m. m.tickets)
      (build_match plain_pie uuids low_rules 0 (solo "f" []) (map (λ s. solo s []) letters)).sent
    ≡ (solo "a" [] ∷ []) ∷ []
unfolding build_match build_loop one_match player_bounds mul_int
low_rules-match = refl
