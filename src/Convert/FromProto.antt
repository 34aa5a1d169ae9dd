-- ===== src/Convert/FromProto.antt =====
-- From the messages of the protocol. Elements of a repeated field are never nil.
use matchmaking_function_grp.Prelude.{Option, none, some, List, [], ◌∷◌}
use matchmaking_function_grp.External.{Pie, Protobuf}
use matchmaking_function_grp.Outcome.{Result, ok, panic, ◌>>=◌, nil_dereference}
use matchmaking_function_grp.PlayerData.{PlayerData, id_from_string}
use matchmaking_function_grp.DataObjects.{
  Ticket, Party, Team, Match, BackfillTicket, BackfillProposal, ServerPoolSelectionParameter,
  no_server_pool,
}
use matchmaking_function_grp.Proto

unfoldable pub proto_party : Proto.Party → Party
proto_party party = record { party_id = party.party_id; user_ids = party.user_ids }

module _ (pie : Pie) where
  unfoldable pub proto_team : Proto.Team → Team
  unfolding proto_party
  proto_team team = record {
    user_ids = pie.pie_map id_from_string team.user_ids;
    parties = pie.pie_map proto_party team.parties;
    team_id = team.team_id;
  }

  -- `protoMatchTeamToMatch` and `protoBackfillTicketTeamToMatch`, which differ in the Go type of
  -- the team only.
  unfoldable pub proto_match_team_to_match : List Proto.Team → List Team
  unfolding proto_team
  proto_match_team_to_match [] = []
  proto_match_team_to_match (team ∷ teams) = proto_team team ∷ proto_match_team_to_match teams

  unfoldable pub proto_backfill_ticket_team_to_match : List Proto.Team → List Team
  unfolding proto_team
  proto_backfill_ticket_team_to_match [] = []
  proto_backfill_ticket_team_to_match (team ∷ teams) =
      proto_team team ∷ proto_backfill_ticket_team_to_match teams

-- The zero value of the struct, if the message has no server pool.
unfoldable pub proto_server_pool : Option Proto.ServerPool → ServerPoolSelectionParameter
proto_server_pool none = no_server_pool
proto_server_pool (some pool) = record {
  server_provider = pool.server_provider;
  deployment = pool.deployment;
  claim_keys = pool.claim_keys;
}

module _ (pie : Pie) (pb : Protobuf) where
  open pb use {Struct, Timestamp, as_map, as_time}

  -- `PartyID` is not set.
  unfoldable pub proto_player : Proto.PlayerData Struct Timestamp → PlayerData
  proto_player p = record {
    player_id = id_from_string p.player_id;
    party_id = "";
    attributes = as_map p.attributes;
  }

  unfoldable pub proto_ticket_to_matchfunction_ticket : Proto.Ticket Struct Timestamp → Ticket
  unfolding proto_player
  proto_ticket_to_matchfunction_ticket ticket = record {
    namespace = ticket.namespace;
    party_session_id = ticket.party_session_id;
    ticket_id = ticket.ticket_id;
    match_pool = ticket.match_pool;
    created_at = as_time ticket.created_at;
    players = pie.pie_map proto_player ticket.players;
    ticket_attributes = as_map ticket.ticket_attributes;
    latencies = ticket.latencies;
    excluded_sessions = ticket.excluded_sessions;
  }

  -- The closures that convert the tickets of a match do what `ProtoTicketToMatchfunctionTicket`
  -- does.
  unfoldable pub proto_partial_match_to_matchfunction_match :
      Option (Proto.PartialMatch Struct Timestamp) → Result Match
  proto_partial_match_to_matchfunction_match none = panic nil_dereference
  proto_partial_match_to_matchfunction_match (some m) = ok (record {
    tickets = pie.pie_map proto_ticket_to_matchfunction_ticket m.tickets;
    teams = proto_backfill_ticket_team_to_match pie m.teams;
    region_preference = m.region_preferences;
    match_attributes = as_map m.match_attributes;
    backfill = m.backfill;
    server_name = m.server_name;
    client_version = m.client_version;
    server_pool_selection_parameter = no_server_pool;
  })

  unfoldable pub proto_backfill_ticket_to_matchfunction_backfill_ticket :
      Proto.BackfillTicket Struct Timestamp → Result BackfillTicket
  proto_backfill_ticket_to_matchfunction_backfill_ticket ticket = do
    partial_match ← proto_partial_match_to_matchfunction_match ticket.partial_match
    ok (record {
      ticket_id = ticket.ticket_id;
      match_pool = ticket.match_pool;
      created_at = as_time ticket.created_at;
      partial_match = partial_match;
      match_session_id = ticket.match_session_id;
    })

  unfoldable pub proto_match_to_matchfunction_match : Proto.Match Struct Timestamp → Match
  unfolding proto_server_pool
  proto_match_to_matchfunction_match m = record {
    tickets = pie.pie_map proto_ticket_to_matchfunction_ticket m.tickets;
    teams = proto_match_team_to_match pie m.teams;
    region_preference = m.region_preferences;
    match_attributes = as_map m.match_attributes;
    backfill = m.backfill;
    server_name = m.server_name;
    client_version = m.client_version;
    server_pool_selection_parameter = proto_server_pool m.server_pool;
  }

  -- The attributes of the proposal are left nil.
  unfoldable pub proto_backfill_proposal_to_matchfunction_backfill_proposal :
      Proto.BackfillProposal Struct Timestamp → BackfillProposal
  proto_backfill_proposal_to_matchfunction_backfill_proposal m = record {
    backfill_ticket_id = m.backfill_ticket_id;
    created_at = as_time m.created_at;
    added_tickets = pie.pie_map proto_ticket_to_matchfunction_ticket m.added_tickets;
    proposed_teams = pie.pie_map (proto_team pie) m.proposed_teams;
    proposal_id = m.proposal_id;
    match_pool = m.match_pool;
    match_session_id = m.match_session_id;
    attributes = none;
  }
