-- ===== src/Convert/Backfill.antt =====
-- What a backfill ticket and a backfill proposal keep on their way as messages.
use matchmaking_function_grp.Prelude.{
  suc, ◌≡◌, refl, ap, sym, ◌∙◌, inl, inr, Bool-cases, none, some, List, [], ◌∷◌, map, length, All,
  ltb, if◌then◌else◌,
}
use matchmaking_function_grp.Value.{Fields, Attributes}
use matchmaking_function_grp.External.{Pie, Protobuf, IsProtobuf}
use matchmaking_function_grp.Outcome.{ok}
use matchmaking_function_grp.PlayerData.{PlayerData, PlayerId, id_to_string}
use matchmaking_function_grp.DataObjects.{
  Ticket, Team, Party, BackfillTicket, BackfillProposal, no_server_pool,
}
use matchmaking_function_grp.Convert.Json.{fields_through_json, convert_attribute}
use matchmaking_function_grp.Convert.FromProto.{
  proto_team, proto_player, proto_ticket_to_matchfunction_ticket,
  proto_backfill_ticket_team_to_match, proto_partial_match_to_matchfunction_match,
  proto_backfill_ticket_to_matchfunction_backfill_ticket,
  proto_backfill_proposal_to_matchfunction_backfill_proposal,
}
use matchmaking_function_grp.Convert.ToProto.{
  to_proto_party, to_proto_team, to_backfill_teams, range_proto_parties, range_users,
  range_proto_teams, to_proto_player_data, matchfunction_ticket_to_proto_ticket,
  matchfunction_backfill_ticket_to_proto_backfill_ticket, added_ticket,
  matchfunction_backfill_proposal_to_proto_backfill_proposal,
}
use matchmaking_function_grp.Convert.RoundTrip.{
  HasJson, HasJsonAttributes, without_party, without_parties, pie_inverse, pie_inverse_id,
  as_map-convert_attribute, team_round, ticket_round_trip,
}

-- The teams that have users.
abbrev pub teams_with_users : List Team → List Team
teams_with_users [] = []
teams_with_users (team ∷ teams) =
    let rest = teams_with_users teams in if ltb 0 (length team.user_ids) then team ∷ rest else rest

length-map : {A B : Type 0} (f : A → B) (xs : List A) → length (map f xs) ≡ length xs
length-map f [] = refl
length-map f (x ∷ xs) = ap suc (length-map f xs)

module _ (pie : Pie) where
  backfill_teams_round :
      (teams : List Team)
      → proto_backfill_ticket_team_to_match pie (to_backfill_teams pie teams)
        ≡ teams_with_users teams
  unfolding proto_backfill_ticket_team_to_match to_backfill_teams
  backfill_teams_round [] = refl
  backfill_teams_round (team ∷ teams) =
      rw (pie.pie_map_lem id_to_string team.user_ids, length-map id_to_string team.user_ids)
        (elim (Bool-cases (ltb 0 (length team.user_ids))) [
          | inl some_users ↦
              rw some_users (λ i. team_round pie team i ∷ backfill_teams_round teams i)
          | inr no_users ↦ rw no_users (backfill_teams_round teams)
        ])

-- A backfill ticket as the messages give it back.
abbrev pub stripped : BackfillTicket → Attributes → BackfillTicket
stripped b attributes = record b {
  partial_match = record b.partial_match {
    tickets = map without_parties b.partial_match.tickets;
    teams = teams_with_users b.partial_match.teams;
    match_attributes = attributes;
    server_pool_selection_parameter = no_server_pool;
  };
}

-- If the attributes of its match have a form in JSON and those of its tickets are maps as JSON
-- gives them, a backfill ticket that is converted to a message and back is the same, but for
-- these: teams with no users, the parties of the players of its tickets and the server pool are
-- gone, and the attributes of its match are as JSON gives them back.
pub backfill_ticket_round_trip :
    (pie : Pie) (pb : Protobuf)
    → IsProtobuf pb
    → (b : BackfillTicket) (fields r : Fields) → b.partial_match.match_attributes ≡ some fields
    → fields_through_json fields ≡ some r
    → All HasJsonAttributes b.partial_match.tickets
    → proto_backfill_ticket_to_matchfunction_backfill_ticket pie pb
        (matchfunction_backfill_ticket_to_proto_backfill_ticket pie pb b)
      ≡ ok (stripped b (some r))
unfolding proto_backfill_ticket_to_matchfunction_backfill_ticket
    matchfunction_backfill_ticket_to_proto_backfill_ticket
    proto_partial_match_to_matchfunction_match
backfill_ticket_round_trip pie pb laws b fields r e json tickets = λ i. ok (record b {
  created_at = laws.as_time-new b.created_at i;
  partial_match = record b.partial_match {
    tickets =
        pie_inverse pie HasJsonAttributes (matchfunction_ticket_to_proto_ticket pie pb)
          (proto_ticket_to_matchfunction_ticket pie pb) without_parties
          (ticket_round_trip pie pb laws) b.partial_match.tickets tickets i;
    teams = backfill_teams_round pie b.partial_match.teams i;
    match_attributes = attributes i;
    server_pool_selection_parameter = no_server_pool;
  };
})
  where
    attributes :
        pb.as_map (pb.new_struct (convert_attribute b.partial_match.match_attributes)) ≡ some r
    attributes = rw e (as_map-convert_attribute pb laws fields r json)

module _ (pie : Pie) (pb : Protobuf) (laws : IsProtobuf pb) where
  as_map-new_struct : (a : Attributes) → HasJson a → pb.as_map (pb.new_struct a) ≡ a
  as_map-new_struct a (fields, e, json) =
      let (s, made, back) = laws.new_struct-plain fields json.plain in rw (e, made) back

  added_player_round :
      (p : PlayerData)
      → HasJson p.attributes
      → proto_player pie pb (to_proto_player_data pie pb p) ≡ without_party p
  unfolding proto_player to_proto_player_data
  added_player_round p h = λ i. record {
    player_id = p.player_id;
    party_id = "";
    attributes = as_map-new_struct p.attributes h i;
  }

  added_ticket_round :
      (t : Ticket)
      → HasJsonAttributes t
      → proto_ticket_to_matchfunction_ticket pie pb (added_ticket pie pb t) ≡ without_parties t
  unfolding proto_ticket_to_matchfunction_ticket added_ticket
  added_ticket_round t h = λ i. record t {
    created_at = laws.as_time-new t.created_at i;
    players =
        pie_inverse pie (λ p. HasJson p.attributes) (to_proto_player_data pie pb)
          (proto_player pie pb) without_party added_player_round t.players h.of_players i;
    ticket_attributes = as_map-new_struct t.ticket_attributes h.of_ticket i;
  }

range_proto_parties-map :
    (parties : List Party) → range_proto_parties parties ≡ map to_proto_party parties
unfolding range_proto_parties
range_proto_parties-map [] = refl
range_proto_parties-map (p ∷ ps) = ap (◌∷◌ (to_proto_party p)) (range_proto_parties-map ps)

range_users-map : (users : List PlayerId) → range_users users ≡ map id_to_string users
range_users-map [] = refl
range_users-map (u ∷ us) = ap (◌∷◌ (id_to_string u)) (range_users-map us)

-- The loops over the teams of a proposal do what the conversion of a team does.
range_proto_teams-map :
    (pie : Pie) (teams : List Team) → range_proto_teams teams ≡ map (to_proto_team pie) teams
unfolding range_proto_teams to_proto_team
range_proto_teams-map pie [] = refl
range_proto_teams-map pie (t ∷ ts) =
    rw
      (
        pie.pie_map_lem id_to_string t.user_ids,
        pie.pie_map_lem to_proto_party t.parties,
        range_users-map,
        range_proto_parties-map,
        range_proto_teams-map pie ts,
      )
      refl

-- If the attributes of its tickets are maps as JSON gives them, a backfill proposal that is
-- converted to a message and back is the same, but without its attributes and without the
-- parties of the players of its tickets.
pub backfill_proposal_round_trip :
    (pie : Pie) (pb : Protobuf)
    → IsProtobuf pb
    → (p : BackfillProposal) → All HasJsonAttributes p.added_tickets
    → proto_backfill_proposal_to_matchfunction_backfill_proposal pie pb
        (matchfunction_backfill_proposal_to_proto_backfill_proposal pie pb p)
      ≡ record p { added_tickets = map without_parties p.added_tickets; attributes = none }
unfolding proto_backfill_proposal_to_matchfunction_backfill_proposal
    matchfunction_backfill_proposal_to_proto_backfill_proposal
backfill_proposal_round_trip pie pb laws p tickets = λ i. record p {
  created_at = laws.as_time-new p.created_at i;
  added_tickets =
      pie_inverse pie HasJsonAttributes (added_ticket pie pb)
        (proto_ticket_to_matchfunction_ticket pie pb) without_parties
        (added_ticket_round pie pb laws) p.added_tickets tickets i;
  proposed_teams = teams i;
  attributes = none;
}
  where
    teams : pie.pie_map (proto_team pie) (range_proto_teams p.proposed_teams) ≡ p.proposed_teams
    teams =
        ap (pie.pie_map (proto_team pie)) (
          range_proto_teams-map pie p.proposed_teams
          ∙ sym (pie.pie_map_lem (to_proto_team pie) p.proposed_teams))
        ∙ pie_inverse_id pie (to_proto_team pie) (proto_team pie) (team_round pie) p.proposed_teams
