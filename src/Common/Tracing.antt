-- ===== src/Common/Tracing.antt =====
-- `NewTracerProvider` of pkg/common/tracerProvider.go. zipkin, the resources and the tracer provider
-- of OpenTelemetry are parameters.
use matchmaking_function_grp.Prelude.{ℤ, pos, String, Option, List, [], ◌∷◌}
use matchmaking_function_grp.Outcome.{Result, ◌>>=◌, ok}
use matchmaking_function_grp.Common.Env.{get_env}

-- `zipkin.New`, the attributes of semanticConventions and attribute, `resource.NewWithAttributes`
-- with the schema of semanticConventions, and `sdkTrace.NewTracerProvider` with a batcher for an
-- exporter, its timeout in nanoseconds, and a resource.
pub record Sdk : Type 1 where
  pub Exporter : Type 0
  pub KeyValue : Type 0
  pub Resource : Type 0
  pub TracerProvider : Type 0
  pub zipkin_new : String → Result Exporter
  pub service_name_key : String → KeyValue
  pub string_attribute : String → String → KeyValue
  pub int_attribute : String → ℤ → KeyValue
  pub resource_of : List KeyValue → Resource
  pub provider_of : Exporter → ℤ → Resource → TracerProvider

unfoldable pub new_tracer_provider :
    (sdk : Sdk) → (String → Option String) → String → String → ℤ → Result sdk.TracerProvider
unfolding get_env
new_tracer_provider sdk lookup_env service_name environment id = do
  exporter ←
      sdk.zipkin_new
        (get_env lookup_env "OTEL_EXPORTER_ZIPKIN_ENDPOINT" "http://localhost:9411/api/v2/spans")
  ok (
      sdk.provider_of exporter (pos 1000000000) (
        sdk.resource_of (
          sdk.service_name_key service_name
          ∷ sdk.string_attribute "environment" environment
          ∷ sdk.int_attribute "ID" id
          ∷ [])))
