-- ===== src/Proto.antt =====
-- The messages of pkg/proto/matchFunction.proto, as the structs of pkg/pb/matchFunction.pb.go have
-- them, without the bookkeeping fields of the protobuf runtime. `Struct` and `Timestamp` are the
-- well-known types of google.golang.org/protobuf; `none` is a nil pointer.
use matchmaking_function_grp.Prelude.{ℤ, String, Bool, Option, List}

pub record Rules : Type 0 where
  pub json : String

pub record Party : Type 0 where
  pub party_id : String
  pub user_ids : List String

pub record ServerPool : Type 0 where
  pub server_provider : String
  pub deployment : String
  pub claim_keys : List String

-- `Match_Team`, `BackfillProposal_Team` and `BackfillTicket_Team` have the same fields.
pub record Team : Type 0 where
  pub user_ids : List String
  pub parties : List Party
  pub team_id : String

module _ (Struct Timestamp : Type 0) where
  pub record PlayerData : Type 0 where
    pub player_id : String
    pub attributes : Option Struct

  pub record Ticket : Type 0 where
    pub ticket_id : String
    pub match_pool : String
    pub created_at : Option Timestamp
    pub players : List (PlayerData)
    pub ticket_attributes : Option Struct
    pub latencies : List (String × ℤ)
    pub party_session_id : String
    pub namespace : String
    pub excluded_sessions : List String

  pub record Match : Type 0 where
    pub tickets : List Ticket
    pub teams : List Team
    pub region_preferences : List String
    pub match_attributes : Option Struct
    pub backfill : Bool
    pub server_name : String
    pub client_version : String
    pub server_pool : Option ServerPool

  pub record PartialMatch : Type 0 where
    pub tickets : List Ticket
    pub teams : List Team
    pub region_preferences : List String
    pub match_attributes : Option Struct
    pub backfill : Bool
    pub server_name : String
    pub client_version : String

  pub record BackfillTicket : Type 0 where
    pub ticket_id : String
    pub match_pool : String
    pub created_at : Option Timestamp
    pub partial_match : Option PartialMatch
    pub match_session_id : String

  pub record BackfillProposal : Type 0 where
    pub backfill_ticket_id : String
    pub created_at : Option Timestamp
    pub added_tickets : List Ticket
    pub proposed_teams : List Team
    pub proposal_id : String
    pub match_pool : String
    pub match_session_id : String
    pub attributes : Option Struct

-- The requests and responses of the unary calls. A message in a field may be absent.
pub record GetStatCodesRequest : Type 0 where
  pub rules : Option Rules

pub record StatCodesResponse : Type 0 where
  pub codes : List String

pub record ValidateTicketRequest (Struct Timestamp : Type 0) : Type 0 where
  pub ticket : Option (Ticket Struct Timestamp)
  pub rules : Option Rules

pub record ValidateTicketResponse : Type 0 where
  pub valid_ticket : Bool

pub record EnrichTicketRequest (Struct Timestamp : Type 0) : Type 0 where
  pub ticket : Option (Ticket Struct Timestamp)
  pub rules : Option Rules

pub record EnrichTicketResponse (Struct Timestamp : Type 0) : Type 0 where
  pub ticket : Ticket Struct Timestamp

-- The parameters that open a stream, of which only the rules are read.
pub record MakeMatchesParameters : Type 0 where
  pub rules : Option Rules

-- The `oneof` fields of the requests of the two streams; `unset` is a nil `RequestType`.
pub data MakeMatchesRequest (Struct Timestamp : Type 0) : Type 0 where
  parameters : MakeMatchesParameters → MakeMatchesRequest Struct Timestamp
  ticket : Ticket Struct Timestamp → MakeMatchesRequest Struct Timestamp
  unset : MakeMatchesRequest Struct Timestamp

pub data BackfillMakeMatchesRequest (Struct Timestamp : Type 0) : Type 0 where
  parameters : MakeMatchesParameters → BackfillMakeMatchesRequest Struct Timestamp
  backfill_ticket : BackfillTicket Struct Timestamp → BackfillMakeMatchesRequest Struct Timestamp
  ticket : Ticket Struct Timestamp → BackfillMakeMatchesRequest Struct Timestamp
  unset : BackfillMakeMatchesRequest Struct Timestamp

-- The responses of the two streams, whose message the handlers always set.
pub record MatchResponse (Struct Timestamp : Type 0) : Type 0 where
  pub found : Match Struct Timestamp

pub record BackfillResponse (Struct Timestamp : Type 0) : Type 0 where
  pub backfill_proposal : BackfillProposal Struct Timestamp
