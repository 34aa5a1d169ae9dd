-- ===== src/Common/Auth.antt =====
-- pkg/common/authServerInterceptor.go. `Validator` is the `Validate` method of the token
-- validator of the AccelByte SDK, from the token and the namespace to the text of an error, or
-- nothing where the variable is nil. The metadata is what `metadata.FromIncomingContext` finds.
use matchmaking_function_grp.Prelude.{
  String, Bool, true, false, Option, none, some, List, [], ◌∷◌, str_eq, starts_with, if◌then◌else◌,
}
use matchmaking_function_grp.Outcome.{
  Result, ok, err, status, internal, unauthenticated, permission_denied, ◌>>◌,
}

abbrev pub Validate : Type 0
Validate = String → String → Option String

abbrev pub Metadata : Type 0
Metadata = List (String × List String)

unfoldable pub values_of : String → Metadata → Option (List String)
values_of key [] = none
values_of key ((k, values) ∷ entries) = if str_eq k key then some values else values_of key entries

-- `strings.TrimPrefix`
abbrev pub drop_prefix : String → String → String
drop_prefix s String.[] = s
drop_prefix String.[] (String.◌∷◌ d p) = String.[]
drop_prefix (String.◌∷◌ c s) (String.◌∷◌ d p) = drop_prefix s p

unfoldable pub trim_prefix : String → String → String
trim_prefix s p = if starts_with s p then drop_prefix s p else s

unfoldable pub skip_check_authorization_metadata : String → Bool
skip_check_authorization_metadata full_method =
    if starts_with full_method "/grpc.reflection.v1alpha.ServerReflection/"
    then true
    else if starts_with full_method "/grpc.health.v1.Health/"
    then true
    else false

abbrev pub denied : Option String → Result (Unit {0})
denied none = ok tt
denied (some message) = err (status permission_denied message)

-- The header values under "authorization".
unfoldable pub check_header : Validate → String → Option (List String) → Result (Unit {0})
check_header validate namespace none =
    err (status unauthenticated "authorization metadata is missing")
check_header validate namespace (some []) =
    err (status unauthenticated "authorization metadata length is 0")
check_header validate namespace (some (authorization ∷ more)) =
    denied (validate (trim_prefix authorization "Bearer ") namespace)

unfoldable pub check_authorization_metadata :
    Option Validate → String → Option Metadata → Result (Unit {0})
check_authorization_metadata none namespace incoming =
    err (status internal "authorization token validator is not set")
check_authorization_metadata (some validate) namespace none =
    err (status unauthenticated "metadata is missing")
check_authorization_metadata (some validate) namespace (some meta) =
    check_header validate namespace (values_of "authorization" meta)

-- `handler` is the call of the handler.
unfoldable pub unary_auth_server_intercept :
    {A : Type 0} → Option Validate → String → Option Metadata → String → Result A → Result A
unary_auth_server_intercept validator namespace incoming full_method handler =
    if skip_check_authorization_metadata full_method
    then handler
    else (check_authorization_metadata validator namespace incoming >> handler)

unfoldable pub stream_auth_server_intercept :
    Option Validate → String → Option Metadata → String → Result (Unit {0}) → Result (Unit {0})
stream_auth_server_intercept validator namespace incoming full_method handler =
    if skip_check_authorization_metadata full_method
    then handler
    else (check_authorization_metadata validator namespace incoming >> handler)
