-- ===== src/Convert/ToProto.antt =====
-- To the messages of the protocol. An error of `convertAttribute` or `structpb.NewStruct` is
-- logged only, and the message goes on without the map.
use matchmaking_function_grp.Prelude.{String, some, List, [], ◌∷◌, length, ltb, if◌then◌else◌}
use matchmaking_function_grp.External.{Pie, Protobuf}
use matchmaking_function_grp.PlayerData.{PlayerData, PlayerId, id_to_string}
use matchmaking_function_grp.DataObjects.{
  Ticket, Party, Team, Match, BackfillTicket, BackfillProposal,
}
use matchmaking_function_grp.Proto
use matchmaking_function_grp.Convert.Json.{convert_attribute}

unfoldable pub to_proto_party : Party → Proto.Party
to_proto_party party = record { party_id = party.party_id; user_ids = party.user_ids }

module _ (pie : Pie) where
  unfoldable pub to_proto_team : Team → Proto.Team
  unfolding to_proto_party
  to_proto_team team = record {
    user_ids = pie.pie_map id_to_string team.user_ids;
    parties = pie.pie_map to_proto_party team.parties;
    team_id = team.team_id;
  }

  -- Teams with no users are dropped.
  unfoldable pub to_backfill_teams : List Team → List Proto.Team
  to_backfill_teams [] = []
  to_backfill_teams (team ∷ teams) =
      let rest = to_backfill_teams teams in
      if ltb 0 (length (pie.pie_map id_to_string team.user_ids))
      then to_proto_team team ∷ rest
      else rest

-- The loops of `MatchfunctionBackfillProposalToProtoBackfillProposal` over parties and teams.
unfoldable pub range_proto_parties : List Party → List Proto.Party
unfolding to_proto_party
range_proto_parties [] = []
range_proto_parties (party ∷ parties) = to_proto_party party ∷ range_proto_parties parties

abbrev pub range_users : List PlayerId → List String
range_users [] = []
range_users (user ∷ users) = id_to_string user ∷ range_users users

unfoldable pub range_proto_teams : List Team → List Proto.Team
unfolding range_proto_parties
range_proto_teams [] = []
range_proto_teams (team ∷ teams) =
    record {
      user_ids = range_users team.user_ids;
      parties = range_proto_parties team.parties;
      team_id = team.team_id;
    }
    ∷ range_proto_teams teams

module _ (pie : Pie) (pb : Protobuf) where
  open pb use {Struct, Timestamp, new_struct, new_timestamp}

  -- The closure over the players in `MatchfunctionTicketToProtoTicket`.
  unfoldable pub converted_player : PlayerData → Proto.PlayerData Struct Timestamp
  converted_player p = record {
    player_id = id_to_string p.player_id;
    attributes = new_struct (convert_attribute p.attributes);
  }

  unfoldable pub to_proto_player_data : PlayerData → Proto.PlayerData Struct Timestamp
  to_proto_player_data p = record {
    player_id = id_to_string p.player_id;
    attributes = new_struct p.attributes;
  }

  unfoldable pub matchfunction_ticket_to_proto_ticket : Ticket → Proto.Ticket Struct Timestamp
  unfolding converted_player
  matchfunction_ticket_to_proto_ticket ticket = record {
    ticket_id = ticket.ticket_id;
    match_pool = ticket.match_pool;
    created_at = some (new_timestamp ticket.created_at);
    players = pie.pie_map converted_player ticket.players;
    ticket_attributes = new_struct (convert_attribute ticket.ticket_attributes);
    latencies = ticket.latencies;
    party_session_id = ticket.party_session_id;
    namespace = ticket.namespace;
    excluded_sessions = ticket.excluded_sessions;
  }

  unfoldable pub matchfunction_tickets_to_proto_tickets :
      List Ticket → List (Proto.Ticket Struct Timestamp)
  matchfunction_tickets_to_proto_tickets [] = []
  matchfunction_tickets_to_proto_tickets (ticket ∷ tickets) =
      matchfunction_ticket_to_proto_ticket ticket ∷ matchfunction_tickets_to_proto_tickets tickets

  unfoldable pub matchfunction_match_to_proto_match : Match → Proto.Match Struct Timestamp
  matchfunction_match_to_proto_match m = record {
    tickets = pie.pie_map matchfunction_ticket_to_proto_ticket m.tickets;
    teams = pie.pie_map (to_proto_team pie) m.teams;
    region_preferences = m.region_preference;
    match_attributes = new_struct (convert_attribute m.match_attributes);
    backfill = m.backfill;
    server_name = m.server_name;
    client_version = m.client_version;
    server_pool = some (record {
      server_provider = m.server_pool_selection_parameter.server_provider;
      deployment = m.server_pool_selection_parameter.deployment;
      claim_keys = m.server_pool_selection_parameter.claim_keys;
    });
  }

  -- The closure over the tickets does what `MatchfunctionTicketToProtoTicket` does.
  unfoldable pub matchfunction_backfill_ticket_to_proto_backfill_ticket :
      BackfillTicket → Proto.BackfillTicket Struct Timestamp
  matchfunction_backfill_ticket_to_proto_backfill_ticket ticket =
      let m = ticket.partial_match in
      record {
        ticket_id = ticket.ticket_id;
        match_pool = ticket.match_pool;
        created_at = some (new_timestamp ticket.created_at);
        partial_match = some (record {
          tickets = pie.pie_map matchfunction_ticket_to_proto_ticket m.tickets;
          teams = to_backfill_teams pie m.teams;
          region_preferences = m.region_preference;
          match_attributes = new_struct (convert_attribute m.match_attributes);
          backfill = m.backfill;
          server_name = m.server_name;
          client_version = m.client_version;
        });
        match_session_id = ticket.match_session_id;
      }

  -- The closure over the added tickets, which takes attributes as they are.
  unfoldable pub added_ticket : Ticket → Proto.Ticket Struct Timestamp
  unfolding to_proto_player_data
  added_ticket t = record {
    ticket_id = t.ticket_id;
    match_pool = t.match_pool;
    created_at = some (new_timestamp t.created_at);
    players = pie.pie_map to_proto_player_data t.players;
    ticket_attributes = new_struct t.ticket_attributes;
    latencies = t.latencies;
    party_session_id = t.party_session_id;
    namespace = t.namespace;
    excluded_sessions = t.excluded_sessions;
  }

  unfoldable pub matchfunction_backfill_proposal_to_proto_backfill_proposal :
      BackfillProposal → Proto.BackfillProposal Struct Timestamp
  unfolding added_ticket range_proto_teams
  matchfunction_backfill_proposal_to_proto_backfill_proposal m = record {
    backfill_ticket_id = m.backfill_ticket_id;
    created_at = some (new_timestamp m.created_at);
    added_tickets = pie.pie_map added_ticket m.added_tickets;
    proposed_teams = range_proto_teams m.proposed_teams;
    proposal_id = m.proposal_id;
    match_pool = m.match_pool;
    match_session_id = m.match_session_id;
    attributes = new_struct m.attributes;
  }
