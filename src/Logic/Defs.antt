-- ===== src/Logic/Defs.antt =====
-- `MatchLogic` as a record of operations, and the operations of `MatchMaker` in
-- pkg/server/matchmaker.go that have no module of their own.
use matchmaking_function_grp.Prelude.{ℕ, String, Bool, true, Option, some, List, [], if◌then◌else◌}
use matchmaking_function_grp.Value.{number, end, field, is_empty}
use matchmaking_function_grp.External.{Pie}
use matchmaking_function_grp.Outcome.{Result, ok, Run}
use matchmaking_function_grp.DataObjects.{Ticket, Match, BackfillProposal}
use matchmaking_function_grp.Rules.{GameRules, RuleSet, rules_from_json}
use matchmaking_function_grp.Matching
use matchmaking_function_grp.Matching.{make_matches}
use matchmaking_function_grp.Parties.{PartyMap}
use matchmaking_function_grp.Backfill.Loop
use matchmaking_function_grp.Backfill.Loop.{backfill_matches}

-- The scopes, which carry the logger and the context, are left out; the channels are the runs of
-- the goroutines that `MakeMatches` and `BackfillMatches` start, given what they receive and how
-- many UUIDs were generated before.
pub record MatchLogic : Type 0 where
  pub backfill_matches_of : ℕ → RuleSet → List Loop.Event → Option (Run BackfillProposal Loop.Phase)
  pub make_matches_of : ℕ → RuleSet → List Matching.Event → Option (Run Match Matching.Phase)
  pub rules_of_json : String → Result RuleSet
  pub stat_codes : RuleSet → List String
  pub validate : Ticket → RuleSet → Result Bool
  pub enrich : Ticket → RuleSet → Result Ticket

unfoldable pub validate_ticket : Ticket → RuleSet → Result Bool
validate_ticket match_ticket match_rules = ok true

-- float64(20)
abbrev pub twenty : ℕ
twenty = 0x4034000000000000

unfoldable pub enrich_ticket : Ticket → RuleSet → Result Ticket
enrich_ticket match_ticket rule_set =
    if is_empty match_ticket.ticket_attributes
    then ok (record match_ticket {
      ticket_attributes = some (field "enrichedNumber" (number twenty) end);
    })
    else ok match_ticket

unfoldable pub get_stat_codes : RuleSet → List String
get_stat_codes match_rules = []

-- `New()`
unfoldable pub match_maker :
    Pie → (PartyMap → PartyMap) → (ℕ → String) → (String → Result GameRules) → MatchLogic
match_maker pie order uuid unmarshal = record {
  backfill_matches_of = backfill_matches pie order uuid;
  make_matches_of = make_matches pie uuid;
  rules_of_json = rules_from_json unmarshal;
  stat_codes = get_stat_codes;
  validate = validate_ticket;
  enrich = enrich_ticket;
}
