-- ===== src/Examples/Common.antt =====
-- The interceptors, with a validator that accepts one token.
use matchmaking_function_grp.Prelude.{
  ℕ, ◌≡◌, refl, ◌⊎◌, String, none, some, [], ◌∷◌, str_eq, if◌then◌else◌,
}
use matchmaking_function_grp.Outcome.{Result, ok, err, Code, status}
use matchmaking_function_grp.Common.Auth.{
  Validate, Metadata, values_of, trim_prefix, skip_check_authorization_metadata, check_header,
  check_authorization_metadata, unary_auth_server_intercept,
}
use matchmaking_function_grp.Common.Scope.{Tracing, child_scope_from_remote_scope, new_root_scope}
use matchmaking_function_grp.Common.TraceIds.{HasUuidForm, IsTraceId, scope-IsTraceId}
use matchmaking_function_grp.Common.Authorized.{
  IsOpen, IsAuthorized, unary_auth_server_intercept-cases,
}

-- OpenTelemetry with no spans: the logger is the trace ID.
abbrev no_spans : Tracing
no_spans = record {
  Context = Unit {0};
  Span = String;
  Logger = String;
  start = λ tracer ctx name. (tt, "00000000000000000000000000000000");
  trace_id_of_span = λ span. span;
  default_with = λ key value. value;
}

abbrev one_uuid : ℕ → String
one_uuid n = "6ba7b810-9dad-11d1-80b4-00c04fd430c8"

one_uuid-HasUuidForm : HasUuidForm (one_uuid 0)
one_uuid-HasUuidForm = record { bytes = refl; four_hyphens = refl }

scope-IsTraceId_example :
    IsTraceId one_uuid 0 "00000000000000000000000000000000"
      ((child_scope_from_remote_scope no_spans one_uuid 0 tt "GRPC.MakeMatches").trace_id)
    × IsTraceId one_uuid 0 "short"
        ((new_root_scope no_spans one_uuid 0 tt "GRPC.MakeMatches" "short").trace_id)
scope-IsTraceId_example =
    scope-IsTraceId no_spans one_uuid 0 0 tt "GRPC.MakeMatches" "short" one_uuid-HasUuidForm
      one_uuid-HasUuidForm

abbrev pub one_token : Validate
one_token token namespace = if str_eq token "secret" then none else some "invalid token"

abbrev pub bearer : String → Metadata
bearer header = ("authorization", header ∷ []) ∷ []

abbrev pub method : String
method = "/accelbyte.matchmaking.matchfunction.MatchFunction/GetStatCodes"

abbrev pub answer : Result ℕ
answer = ok 1

-- The right token passes, with its prefix.
accepted :
    unary_auth_server_intercept (some one_token) "n" (some (bearer "Bearer secret")) method answer
    ≡ answer
unfolding unary_auth_server_intercept skip_check_authorization_metadata check_authorization_metadata
    check_header values_of trim_prefix
accepted = refl

unary_auth_server_intercept-cases_example :
    (IsOpen method ⊎ IsAuthorized (some one_token) "n" (some (bearer "Bearer secret")))
      × (unary_auth_server_intercept
            (some one_token)
            "n"
            (some (bearer "Bearer secret"))
            method
            answer
          ≡ answer)
    ⊎ (¬ IsOpen method)
      × (¬ IsAuthorized (some one_token) "n" (some (bearer "Bearer secret")))
      × ((code : Code) × (message : String) × (unary_auth_server_intercept
              (some one_token)
              "n"
              (some (bearer "Bearer secret"))
              method
              answer
            ≡ err (status code message)))
unary_auth_server_intercept-cases_example =
    unary_auth_server_intercept-cases (some one_token) "n" (some (bearer "Bearer secret")) method
      answer
