-- ===== src/Examples/Rules.antt =====
-- `RulesFromJSON` on small inputs.
use matchmaking_function_grp.Prelude.{String, ◌≡◌, refl, true, pos}
use matchmaking_function_grp.Outcome.{Result, ok, err}
use matchmaking_function_grp.Rules.{GameRules, game_rules, ship_error, check_rules, rules_from_json}
use matchmaking_function_grp.Matching.Limits.{rules_of}
use matchmaking_function_grp.Examples.Data.{two_to_three}

abbrev fixed : String → Result GameRules
fixed text = ok (rules_of two_to_three true)

ships_out_of_order :
    rules_from_json
      (λ text. ok (record (rules_of two_to_three true) { ship_count_min = pos 1 }))
      "{}"
    ≡ err ship_error
unfolding rules_from_json check_rules
ships_out_of_order = refl

in_order : rules_from_json fixed "{}" ≡ ok (game_rules (rules_of two_to_three true))
unfolding rules_from_json check_rules
in_order = refl
