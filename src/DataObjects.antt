-- ===== src/DataObjects.antt =====
-- pkg/matchmaker/dataobjects.go: the messages of the matchmaker, as the Go structs have them.
use matchmaking_function_grp.Prelude.{ℤ, String, none, Bool, List, []}
use matchmaking_function_grp.Value.{Attributes}
use matchmaking_function_grp.External.{Time, zero_time}
use matchmaking_function_grp.PlayerData.{PlayerId, PlayerData}

pub record Ticket : Type 0 where
  pub namespace : String
  pub party_session_id : String
  pub ticket_id : String
  pub match_pool : String
  pub created_at : Time
  pub players : List PlayerData
  pub ticket_attributes : Attributes
  pub latencies : List (String × ℤ)
  pub excluded_sessions : List String

-- The zero value that `make([]Ticket, n)` fills a slice with.
abbrev pub zero_ticket : Ticket
zero_ticket = record {
  namespace = "";
  party_session_id = "";
  ticket_id = "";
  match_pool = "";
  created_at = zero_time;
  players = [];
  ticket_attributes = none;
  latencies = [];
  excluded_sessions = [];
}

pub record Party : Type 0 where
  pub party_id : String
  pub user_ids : List String

pub record Team : Type 0 where
  pub user_ids : List PlayerId
  pub parties : List Party
  pub team_id : String

pub record ServerPoolSelectionParameter : Type 0 where
  pub server_provider : String
  pub deployment : String
  pub claim_keys : List String

abbrev pub no_server_pool : ServerPoolSelectionParameter
no_server_pool = record { server_provider = ""; deployment = ""; claim_keys = [] }

pub record Match : Type 0 where
  pub tickets : List Ticket
  pub teams : List Team
  pub region_preference : List String
  pub match_attributes : Attributes
  pub backfill : Bool
  pub server_name : String
  pub client_version : String
  pub server_pool_selection_parameter : ServerPoolSelectionParameter

pub record BackfillTicket : Type 0 where
  pub ticket_id : String
  pub match_pool : String
  pub created_at : Time
  pub partial_match : Match
  pub match_session_id : String

pub record BackfillProposal : Type 0 where
  pub backfill_ticket_id : String
  pub created_at : Time
  pub added_tickets : List Ticket
  pub proposed_teams : List Team
  pub proposal_id : String
  pub match_pool : String
  pub match_session_id : String
  pub attributes : Attributes
