-- ===== src/Common/Validator.antt =====
-- `NewTokenValidator` of pkg/common/authServerInterceptor.go. The packages of the AccelByte SDK and
-- encoding/base64 that it names are parameters.
use matchmaking_function_grp.Prelude.{ℤ, String, Bool, Option, none, List, []}
use matchmaking_function_grp.Common.Auth.{Validate}

-- The types and values of the packages iam and iamclientmodels, and the encoding
-- `base64.URLEncoding.WithPadding(base64.NoPadding)`.
pub record Iam : Type 1 where
  pub OAuth20Service : Type 0
  pub Filter : Type 0
  pub JwkSet : Type 0
  pub Claims : Type 0
  pub Encoding : Type 0
  pub PublicKey : Type 0
  pub Time : Type 0
  pub Role : Type 0
  pub zero_claims : Claims
  pub unpadded_url_encoding : Encoding

-- `iam.TokenValidator`. A Go map is the list of its entries.
pub record TokenValidator (iam : Iam) : Type 0 where
  pub auth_service : iam.OAuth20Service
  pub refresh_interval : ℤ
  pub filter : Option iam.Filter
  pub jwk_set : Option iam.JwkSet
  pub jwt_claims : iam.Claims
  pub jwt_encoding : iam.Encoding
  pub public_keys : List (String × iam.PublicKey)
  pub local_validation_active : Bool
  pub revoked_users : List (String × iam.Time)
  pub roles : List (String × iam.Role)

-- Its methods: `Initialize`, with the text of its error, and `Validate`.
pub record TokenMethods (iam : Iam) : Type 0 where
  pub initialize : TokenValidator iam → TokenValidator iam × Option String
  pub validate : TokenValidator iam → Validate

unfoldable pub new_token_validator :
    (iam : Iam) → iam.OAuth20Service → ℤ → Bool → TokenValidator iam
new_token_validator iam auth_service refresh_interval validate_locally = record {
  auth_service = auth_service;
  refresh_interval = refresh_interval;
  filter = none;
  jwk_set = none;
  jwt_claims = iam.zero_claims;
  jwt_encoding = iam.unpadded_url_encoding;
  public_keys = [];
  local_validation_active = validate_locally;
  revoked_users = [];
  roles = [];
}
