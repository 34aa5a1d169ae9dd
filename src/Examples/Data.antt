-- ===== src/Examples/Data.antt =====
-- Players, tickets and rules that the examples share.
use matchmaking_function_grp.Parties.{PartyMap}
use matchmaking_function_grp.Proto
use matchmaking_function_grp.External.{plain_protobuf}
use matchmaking_function_grp.Prelude.{ℕ, String, true, none, some, List, [], ◌∷◌}
use matchmaking_function_grp.Value.{end}
use matchmaking_function_grp.External.{zero_time}
use matchmaking_function_grp.PlayerData.{PlayerData}
use matchmaking_function_grp.DataObjects.{Ticket, BackfillTicket, no_server_pool, zero_ticket}
use matchmaking_function_grp.Matching.Limits.{Numbers}

abbrev pub uuids : ℕ → String
uuids n = "a-b"

abbrev pub player : String → String → PlayerData
player id party = record { player_id = id; party_id = party; attributes = none }

-- A ticket of one player.
abbrev pub solo : String → List String → Ticket
solo id sessions = record zero_ticket {
  ticket_id = id;
  players = player id "" ∷ [];
  excluded_sessions = sessions;
}

-- A session that wants more players.
abbrev pub session : String → BackfillTicket
session id = record {
  ticket_id = id;
  match_pool = "pool";
  created_at = zero_time;
  partial_match = record {
    tickets = [];
    teams = [];
    region_preference = [];
    match_attributes = some end;
    backfill = true;
    server_name = "";
    client_version = "";
    server_pool_selection_parameter = no_server_pool;
  };
  match_session_id = id;
}

-- Two or three teams of one player.
abbrev pub two_to_three : Numbers
two_to_three = record {
  teams_min = 2;
  teams_max = 3;
  players_min = 1;
  players_max = 1;
  ships_min = 0;
  ships_max = 0;
}

-- At most two teams of one player, and no minimum.
abbrev pub up_to_two : Numbers
up_to_two = record {
  teams_min = 0;
  teams_max = 2;
  players_min = 1;
  players_max = 1;
  ships_min = 0;
  ships_max = 0;
}

abbrev pub in_order : PartyMap → PartyMap
in_order entries = entries

abbrev pub ticket_message : String → Proto.Ticket plain_protobuf.Struct plain_protobuf.Timestamp
ticket_message id = record {
  ticket_id = id;
  match_pool = "pool";
  created_at = none;
  players = record { player_id = id; attributes = none } ∷ [];
  ticket_attributes = none;
  latencies = [];
  party_session_id = "";
  namespace = "n";
  excluded_sessions = [];
}
