-- ===== src/Examples/Convert.antt =====
-- The conversions on small messages, with the packages of `External`.
use matchmaking_function_grp.Prelude.{◌≡◌, ◌≢◌, refl, false, none, some, List, [], ◌∷◌, map}
use matchmaking_function_grp.Value.{
  Fields, text, strings, array, nil, cons, end, field, is_plain_fields,
}
use matchmaking_function_grp.External.{plain_pie, plain_protobuf, plain_protobuf-IsProtobuf}
use matchmaking_function_grp.DataObjects.{Ticket, Match, no_server_pool, zero_ticket}
use matchmaking_function_grp.Convert.{
  fields_through_json, convert_attribute, proto_ticket_to_matchfunction_ticket,
  matchfunction_ticket_to_proto_ticket, proto_match_to_matchfunction_match,
  matchfunction_match_to_proto_match,
}
use matchmaking_function_grp.Convert.Plain.{IsJson, fields_through_json-IsJson}
use matchmaking_function_grp.Convert.Whole.{Converts, convert_attribute-Converts}
use matchmaking_function_grp.Convert.RoundTrip.{
  HasJsonAttributes, without_parties, ticket_round_trip, match_round_trip,
}
use matchmaking_function_grp.Convert.Backfill.{
  stripped, backfill_ticket_round_trip, backfill_proposal_round_trip,
}
use matchmaking_function_grp.External.{zero_time}
use matchmaking_function_grp.Outcome.{ok}
use matchmaking_function_grp.DataObjects.{BackfillTicket, BackfillProposal}
use matchmaking_function_grp.Convert.{
  proto_backfill_ticket_to_matchfunction_backfill_ticket,
  matchfunction_backfill_ticket_to_proto_backfill_ticket,
  proto_backfill_proposal_to_matchfunction_backfill_proposal,
  matchfunction_backfill_proposal_to_proto_backfill_proposal,
}
use matchmaking_function_grp.Convert.Parties.{player_data_to_parties-received}
use matchmaking_function_grp.Parties.{PartyMap, player_data_to_parties}
use matchmaking_function_grp.Proto
use mathlib.Core.List.Perm

-- The attributes of a match, with a list of strings, and as JSON gives them back.
abbrev assigned : Fields
assigned = field "assignment" (strings ("a" ∷ "b" ∷ [])) end

abbrev from_json : Fields
from_json = field "assignment" (array (cons (text "a") (cons (text "b") nil))) end

assigned-from_json : fields_through_json assigned ≡ some from_json
unfolding fields_through_json
assigned-from_json = refl

convert_attribute-Converts_example : Converts assigned (convert_attribute (some assigned))
convert_attribute-Converts_example = convert_attribute-Converts assigned

-- Two players of one party.
abbrev pair : Ticket
pair = record zero_ticket {
  ticket_id = "t";
  players =
      record { player_id = "a"; party_id = "p"; attributes = some end }
      ∷ record { player_id = "b"; party_id = "p"; attributes = some from_json }
      ∷ [];
  ticket_attributes = some from_json;
}

end-IsJson : IsJson end
unfolding fields_through_json is_plain_fields
end-IsJson = record { plain = refl; again = refl }

pair-HasJsonAttributes : HasJsonAttributes pair
pair-HasJsonAttributes =
    let json = fields_through_json-IsJson assigned from_json assigned-from_json in
    record {
      of_ticket = (from_json, refl, json);
      of_players = ((end, refl, end-IsJson), ((from_json, refl, json), tt));
    }

ticket_round_trip_example :
    proto_ticket_to_matchfunction_ticket plain_pie plain_protobuf
      (matchfunction_ticket_to_proto_ticket plain_pie plain_protobuf pair)
    ≡ without_parties pair
ticket_round_trip_example =
    ticket_round_trip plain_pie plain_protobuf plain_protobuf-IsProtobuf pair pair-HasJsonAttributes

abbrev one_match : Match
one_match = record {
  tickets = pair ∷ [];
  teams =
      record {
        user_ids = "a" ∷ "b" ∷ [];
        parties = record { party_id = "p"; user_ids = "a" ∷ "b" ∷ [] } ∷ [];
        team_id = "x";
      }
      ∷ [];
  region_preference = "any" ∷ [];
  match_attributes = some assigned;
  backfill = false;
  server_name = "";
  client_version = "";
  server_pool_selection_parameter = no_server_pool;
}

match_round_trip_example :
    proto_match_to_matchfunction_match plain_pie plain_protobuf
      (matchfunction_match_to_proto_match plain_pie plain_protobuf one_match)
    ≡ record one_match {
      tickets = map without_parties (pair ∷ []);
      match_attributes = some from_json;
    }
match_round_trip_example =
    match_round_trip plain_pie plain_protobuf plain_protobuf-IsProtobuf one_match assigned from_json
      refl assigned-from_json (pair-HasJsonAttributes, tt)

abbrev pair_message : Proto.Ticket plain_protobuf.Struct plain_protobuf.Timestamp
pair_message = record {
  ticket_id = "t";
  match_pool = "pool";
  created_at = none;
  players =
      record { player_id = "a"; attributes = none }
      ∷ record { player_id = "b"; attributes = none }
      ∷ [];
  ticket_attributes = none;
  latencies = [];
  party_session_id = "p";
  namespace = "n";
  excluded_sessions = [];
}

cons≢nil : {A : Type 0} {x : A} {xs : List A} → ◌≢◌ {A = List A} (x ∷ xs) []
cons≢nil h = cc

player_data_to_parties-received_example :
    player_data_to_parties
      (λ (entries : PartyMap). entries)
      (proto_ticket_to_matchfunction_ticket plain_pie plain_protobuf pair_message).players
    ≡ record { party_id = ""; user_ids = "a" ∷ "b" ∷ [] } ∷ []
player_data_to_parties-received_example =
    player_data_to_parties-received plain_pie plain_protobuf (λ entries. entries) pair_message
      (λ entries. Perm.refl entries) cons≢nil

-- A session whose match has one team.
abbrev played : BackfillTicket
played = record {
  ticket_id = "b";
  match_pool = "pool";
  created_at = zero_time;
  partial_match = one_match;
  match_session_id = "s";
}

backfill_ticket_round_trip_example :
    proto_backfill_ticket_to_matchfunction_backfill_ticket plain_pie plain_protobuf
      (matchfunction_backfill_ticket_to_proto_backfill_ticket plain_pie plain_protobuf played)
    ≡ ok (stripped played (some from_json))
backfill_ticket_round_trip_example =
    backfill_ticket_round_trip plain_pie plain_protobuf plain_protobuf-IsProtobuf played assigned
      from_json refl assigned-from_json (pair-HasJsonAttributes, tt)

abbrev proposal : BackfillProposal
proposal = record {
  backfill_ticket_id = "b";
  created_at = zero_time;
  added_tickets = pair ∷ [];
  proposed_teams = one_match.teams;
  proposal_id = "p";
  match_pool = "pool";
  match_session_id = "s";
  attributes = some from_json;
}

backfill_proposal_round_trip_example :
    proto_backfill_proposal_to_matchfunction_backfill_proposal plain_pie plain_protobuf
      (matchfunction_backfill_proposal_to_proto_backfill_proposal plain_pie plain_protobuf proposal)
    ≡ record proposal { added_tickets = map without_parties (pair ∷ []); attributes = none }
backfill_proposal_round_trip_example =
    backfill_proposal_round_trip plain_pie plain_protobuf plain_protobuf-IsProtobuf proposal
      (pair-HasJsonAttributes, tt)
