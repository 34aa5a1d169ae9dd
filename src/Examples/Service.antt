-- ===== src/Examples/Service.antt =====
-- The handlers on small messages, with the packages of `External`.
use matchmaking_function_grp.Prelude.{◌≡◌, refl, String, true, none, some}
use matchmaking_function_grp.Value.{end, is_plain_fields}
use matchmaking_function_grp.External.{plain_pie, plain_protobuf, plain_protobuf-IsProtobuf}
use matchmaking_function_grp.Outcome.{Result, ok}
use matchmaking_function_grp.Rules.{GameRules, RuleSet, game_rules, rules_from_json, check_rules}
use matchmaking_function_grp.Proto
use matchmaking_function_grp.Proto.{MakeMatchesRequest}
use matchmaking_function_grp.Convert.{proto_ticket_to_matchfunction_ticket, fields_through_json}
use matchmaking_function_grp.Convert.RoundTrip.{HasJsonAttributes, without_parties}
use matchmaking_function_grp.Matching.Limits.{rules_of}
use matchmaking_function_grp.Logic.{match_maker}
use matchmaking_function_grp.Service.{handle_enrich_ticket}
use matchmaking_function_grp.Pipeline.{message}
use matchmaking_function_grp.Service.{start_make_matches}
use matchmaking_function_grp.Service.Tickets.{enriched, handle_enrich_ticket_lem}
use matchmaking_function_grp.Examples.Data.{uuids, two_to_three, ticket_message, in_order}

-- Every text is read as the rules for two or three players.
abbrev reader : String → Result GameRules
reader text = ok (rules_of two_to_three true)

abbrev accepted_rules : RuleSet
accepted_rules = game_rules (rules_of two_to_three true)

started :
    start_make_matches plain_protobuf
      (match_maker plain_pie in_order uuids reader)
      (message (MakeMatchesRequest.parameters (record { rules = some (record { json = "{}" }) })))
    ≡ ok accepted_rules
unfolding start_make_matches match_maker rules_from_json check_rules
started = refl

received-HasJsonAttributes :
    HasJsonAttributes
      (proto_ticket_to_matchfunction_ticket plain_pie plain_protobuf (ticket_message "a"))
unfolding proto_ticket_to_matchfunction_ticket fields_through_json is_plain_fields
received-HasJsonAttributes = record {
  of_ticket = (end, refl, record { plain = refl; again = refl });
  of_players = ((end, refl, record { plain = refl; again = refl }), tt);
}

handle_enrich_ticket_lem_example :
    (answer : Proto.Ticket plain_protobuf.Struct plain_protobuf.Timestamp) × (handle_enrich_ticket
        plain_pie plain_protobuf
        (match_maker plain_pie in_order uuids reader)
        (record { ticket = some (ticket_message "a"); rules = none })
      ≡ ok (record { ticket = answer }))
    × (proto_ticket_to_matchfunction_ticket plain_pie plain_protobuf answer
        ≡ without_parties (
            enriched
              (proto_ticket_to_matchfunction_ticket plain_pie plain_protobuf (ticket_message "a"))))
handle_enrich_ticket_lem_example =
    handle_enrich_ticket_lem plain_pie plain_protobuf plain_protobuf-IsProtobuf in_order uuids
      reader none (ticket_message "a") received-HasJsonAttributes
