-- ===== src/Service/Tickets.antt =====
-- What the unary handlers answer with the operations of `MatchMaker`.
use matchmaking_function_grp.Prelude.{
  ℕ, ◌≡◌, refl, String, true, if◌then◌else◌, inl, inr, Bool-cases, Option, some,
}
use matchmaking_function_grp.Value.{is_plain_fields, Attributes, number, end, field, is_empty}
use matchmaking_function_grp.External.{Pie, Protobuf, IsProtobuf}
use matchmaking_function_grp.Outcome.{Result, ok, err, panic, Panic}
use matchmaking_function_grp.DataObjects.{Ticket}
use matchmaking_function_grp.Rules.{GameRules, RuleSet, no_rules, other_type, rules_from_json}
use matchmaking_function_grp.Rules.Checks.{rules_from_json-panics}
use matchmaking_function_grp.Convert.Plain.{IsJson}
use matchmaking_function_grp.Proto
use matchmaking_function_grp.Convert.{
  fields_through_json, proto_ticket_to_matchfunction_ticket, matchfunction_ticket_to_proto_ticket,
}
use matchmaking_function_grp.Convert.RoundTrip.{
  HasJson, HasJsonAttributes, without_parties, ticket_round_trip,
}
use matchmaking_function_grp.Parties.{PartyMap}
use matchmaking_function_grp.Logic.{match_maker, validate_ticket, enrich_ticket, twenty}
use matchmaking_function_grp.Service.Unary.{
  or_no_rules, handle_validate_ticket, handle_enrich_ticket,
}

-- The ticket with an attribute if it has none.
abbrev pub enriched : Ticket → Ticket
enriched t = record t {
  ticket_attributes =
      if is_empty t.ticket_attributes
      then some (field "enrichedNumber" (number twenty) end)
      else t.ticket_attributes;
}

enrich_ticket-enriched : (t : Ticket) (rules : RuleSet) → enrich_ticket t rules ≡ ok (enriched t)
unfolding enrich_ticket
enrich_ticket-enriched t rules = elim (Bool-cases (is_empty t.ticket_attributes)) [
  | inl empty ↦ rw empty
  | inr full ↦ rw full
]

enriched-HasJson :
    (a : Attributes)
    → HasJson a
    → HasJson (if is_empty a then some (field "enrichedNumber" (number twenty) end) else a)
enriched-HasJson a h = elim (Bool-cases (is_empty a)) [
  | inl empty ↦ rw empty (field "enrichedNumber" (number twenty) end, refl, twenty-IsJson)
  | inr full ↦ rw full h
]
  where
    twenty-IsJson : IsJson (field "enrichedNumber" (number twenty) end)
    twenty-IsJson =
        unfold is_plain_fields fields_through_json in record { plain = refl; again = refl }

or_no_rules-total :
    (r : Result RuleSet)
    → ((p : Panic) → r ≡ panic p → ⊥)
    → (rules : RuleSet) × (or_no_rules r ≡ ok rules)
or_no_rules-total (ok rules) h = (rules, refl)
or_no_rules-total (err e) h = (no_rules, refl)
or_no_rules-total (panic p) h = absurd (h p refl)

module _ (pie : Pie) (pb : Protobuf) (laws : IsProtobuf pb) (order : PartyMap → PartyMap)
    (uuid : ℕ → String) (unmarshal : String → Result GameRules) where
  -- If the attributes of the ticket in the request and of its players are maps as JSON gives
  -- them, `EnrichTicket` answers with no error, and the ticket in the answer, read again, is
  -- the one of the request, with `enrichedNumber` as its attributes if it had none, and without
  -- the parties of its players.
  pub handle_enrich_ticket_lem :
      (rules : Option Proto.Rules) (ticket : Proto.Ticket pb.Struct pb.Timestamp)
      → HasJsonAttributes (proto_ticket_to_matchfunction_ticket pie pb ticket)
      → (answer : Proto.Ticket pb.Struct pb.Timestamp) × (handle_enrich_ticket pie pb
            (match_maker pie order uuid unmarshal)
            (record { ticket = some ticket; rules = rules })
          ≡ ok (record { ticket = answer }))
        × (proto_ticket_to_matchfunction_ticket pie pb answer
            ≡ without_parties (enriched (proto_ticket_to_matchfunction_ticket pie pb ticket)))
  unfolding handle_enrich_ticket match_maker
  handle_enrich_ticket_lem rules ticket json =
      let t = proto_ticket_to_matchfunction_ticket pie pb ticket in
      (
        matchfunction_ticket_to_proto_ticket pie pb (enriched t),
        rw (enrich_ticket-enriched t other_type),
        ticket_round_trip pie pb laws (enriched t) (record {
          of_ticket = enriched-HasJson t.ticket_attributes json.of_ticket;
          of_players = json.of_players;
        }),
      )

  -- If the request has a ticket and rules, and `json.Unmarshal` does not panic,
  -- `ValidateTicket` answers that the ticket is valid, also if the rules cannot be read or are
  -- refused.
  pub handle_validate_ticket_lem :
      (rules : Proto.Rules) (ticket : Proto.Ticket pb.Struct pb.Timestamp)
      → ((p : Panic) → unmarshal rules.json ≡ panic p → ⊥)
      → handle_validate_ticket pie pb
          (match_maker pie order uuid unmarshal)
          (record { ticket = some ticket; rules = some rules })
        ≡ ok (record { valid_ticket = true })
  unfolding handle_validate_ticket match_maker
  handle_validate_ticket_lem rules ticket total =
      let t = proto_ticket_to_matchfunction_ticket pie pb ticket in
      let (r, e) =
        or_no_rules-total (rules_from_json unmarshal rules.json)
          (λ p h. total p (rules_from_json-panics unmarshal rules.json p h)) in
      rw e (unfold validate_ticket in refl)
