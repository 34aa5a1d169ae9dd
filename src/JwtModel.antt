-- ===== src/JwtModel.antt =====
-- pkg/server/model.go: the claims of an access token. The package jwt is a parameter.
use matchmaking_function_grp.Prelude.{ℤ, String, Bool, List}
use matchmaking_function_grp.Outcome.{Result}

pub record Permission : Type 0 where
  pub resource : String
  pub action : ℤ
  pub scheduled_action : ℤ
  pub cron_schedule : String
  pub range_schedule : List String

pub record Role : Type 0 where
  pub role_id : String
  pub role_name : String
  pub permissions : List Permission

pub record NamespaceRole : Type 0 where
  pub role_id : String
  pub namespace : String

pub record JwtBan (Time : Type 0) : Type 0 where
  pub ban : String
  pub end_date : Time

pub record JwtClaims (Time Claims : Type 0) : Type 0 where
  pub namespace : String
  pub display_name : String
  pub roles : List String
  pub namespace_roles : List NamespaceRole
  pub permissions : List Permission
  pub bans : List (JwtBan Time)
  pub justice_flags : ℤ
  pub scope : String
  pub country : String
  pub client_id : String
  pub is_comply : Bool
  pub studio_namespace : String
  pub claims : Claims

-- The embedded `jwt.Claims` are validated at `now`, which is `time.Now().UTC()`; `validate_at` is
-- their `Validate` with this time and nothing else expected.
unfoldable pub validate :
    {Time Claims : Type 0}
    → (Claims → Time → Result (Unit {0}))
    → Time
    → JwtClaims Time Claims
    → Result (Unit {0})
validate validate_at now c = validate_at c.claims now
