-- ===== src/Service/Unary.antt =====
-- The handlers of the unary calls, over any `MatchLogic`.
use matchmaking_function_grp.Prelude.{Option, none, some}
use matchmaking_function_grp.External.{Pie, Protobuf}
use matchmaking_function_grp.Outcome.{Result, ok, err, panic, ◌>>=◌, nil_dereference}
use matchmaking_function_grp.Rules.{RuleSet, no_rules, other_type}
use matchmaking_function_grp.Proto
use matchmaking_function_grp.Convert.{
  proto_ticket_to_matchfunction_ticket, matchfunction_ticket_to_proto_ticket,
}
use matchmaking_function_grp.Logic.{MatchLogic}

-- `*p`
abbrev pub dereference : {A : Type 0} → Option A → Result A
dereference none = panic nil_dereference
dereference (some a) = ok a

-- An error is logged, and the rules are nil then.
abbrev pub or_no_rules : Result RuleSet → Result RuleSet
or_no_rules (ok rules) = ok rules
or_no_rules (err e) = ok no_rules
or_no_rules (panic p) = panic p

module _ (mm : MatchLogic) where
  unfoldable pub handle_get_stat_codes : Proto.GetStatCodesRequest → Result Proto.StatCodesResponse
  handle_get_stat_codes req = do
    request_rules ← dereference req.rules
    rules ← mm.rules_of_json request_rules.json
    ok (record { codes = mm.stat_codes rules })

module _ (pie : Pie) (pb : Protobuf) (mm : MatchLogic) where
  open pb use {Struct, Timestamp}

  unfoldable pub handle_validate_ticket :
      Proto.ValidateTicketRequest Struct Timestamp → Result Proto.ValidateTicketResponse
  handle_validate_ticket req = do
    request_rules ← dereference req.rules
    rules ← or_no_rules (mm.rules_of_json request_rules.json)
    request_ticket ← dereference req.ticket
    valid ← mm.validate (proto_ticket_to_matchfunction_ticket pie pb request_ticket) rules
    ok (record { valid_ticket = valid })

  -- The rules are handed on as they stand in the request, so they are no `GameRules`.
  unfoldable pub handle_enrich_ticket :
      Proto.EnrichTicketRequest Struct Timestamp
      → Result (Proto.EnrichTicketResponse Struct Timestamp)
  handle_enrich_ticket req = do
    request_ticket ← dereference req.ticket
    enriched ← mm.enrich (proto_ticket_to_matchfunction_ticket pie pb request_ticket) other_type
    ok (record { ticket = matchfunction_ticket_to_proto_ticket pie pb enriched })
