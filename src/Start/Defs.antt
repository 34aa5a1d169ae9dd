-- ===== src/Start/Defs.antt =====
-- main.go, as far as it is no I/O. `lower` is `strings.ToLower`, `lookup_env` is `os.LookupEnv`, and
-- `itoa` and `atoi` are those of strconv.
use Prim.Native.String.{◌++◌}
use matchmaking_function_grp.Prelude.{
  ℤ, pos, mul_int, String, Bool, true, Option, none, some, str_eq, if◌then◌else◌, List, [], ◌∷◌,
}
use matchmaking_function_grp.Outcome.{Result}
use matchmaking_function_grp.Common.Auth.{
  Validate, Metadata, unary_auth_server_intercept, stream_auth_server_intercept,
}
use matchmaking_function_grp.Common.Validator.{Iam, TokenMethods, new_token_validator}
use matchmaking_function_grp.Common.Env.{get_env, get_env_int}

-- From the metadata of the call, its full method and what the handler does, to what the call does.
abbrev pub UnaryServerInterceptor : Type 0 → Type 0
UnaryServerInterceptor A = Option Metadata → String → Result A → Result A

abbrev pub StreamServerInterceptor : Type 0
StreamServerInterceptor = Option Metadata → String → Result (Unit {0}) → Result (Unit {0})

module _ (lower : String → String) (lookup_env : String → Option String) where
  unfoldable pub is_auth_enabled : Bool
  unfolding get_env
  is_auth_enabled =
      str_eq (lower (get_env lookup_env "PLUGIN_GRPC_SERVER_AUTH_ENABLED" "true")) "true"

  -- `namespace` is the value of AB_NAMESPACE.
  unfoldable pub unary_server_interceptors :
      {A : Type 0}
      → UnaryServerInterceptor A
      → UnaryServerInterceptor A
      → Option Validate
      → String
      → List (UnaryServerInterceptor A)
  unary_server_interceptors metrics logging validator namespace =
      if is_auth_enabled
      then metrics ∷ logging ∷ unary_auth_server_intercept validator namespace ∷ []
      else metrics ∷ logging ∷ []

  unfoldable pub stream_server_interceptors :
      StreamServerInterceptor
      → StreamServerInterceptor
      → Option Validate
      → String
      → List StreamServerInterceptor
  stream_server_interceptors metrics logging validator namespace =
      if is_auth_enabled
      then metrics ∷ logging ∷ stream_auth_server_intercept validator namespace ∷ []
      else metrics ∷ logging ∷ []

  unfoldable pub service_name : String
  unfolding get_env
  service_name =
      let val = get_env lookup_env "OTEL_SERVICE_NAME" "" in
      if str_eq val "" then "extend-app-matchmaking-func" else "extend-app-mm-" ++ lower val

module _ (itoa : ℤ → String) (atoi : String → Option ℤ) (lookup_env : String → Option String) where
  -- `time.Duration(refreshInterval)*time.Second`, in nanoseconds
  unfoldable pub refresh_duration : ℤ
  unfolding get_env_int mul_int
  refresh_duration =
      mul_int (get_env_int itoa atoi lookup_env "REFRESH_INTERVAL" (pos 600)) (pos 1000000000)

module _ (lower : String → String) (itoa : ℤ → String) (atoi : String → Option ℤ)
    (lookup_env : String → Option String) (iam : Iam) (methods : TokenMethods iam) where
  -- `common.Validator`, which stays nil if calls need no authorization; an error of `Initialize` is
  -- logged.
  unfoldable pub start_validator : iam.OAuth20Service → Option Validate
  unfolding is_auth_enabled refresh_duration new_token_validator
  start_validator oauth_service =
      if is_auth_enabled lower lookup_env
      then some (
          methods.validate
            (methods.initialize (
              new_token_validator iam oauth_service (refresh_duration itoa atoi lookup_env)
                true)).0)
      else none
