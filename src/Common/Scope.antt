-- ===== src/Common/Scope.antt =====
-- pkg/common/scope.go, and `getUUID` of pkg/common/utils.go.
use Prim.Native.String.{len}
use matchmaking_function_grp.Prelude.{
  ℕ, String, ◌||◌, not, ◌==◌, str_eq, remove_hyphens, if◌then◌else◌,
}

-- OpenTelemetry and log/slog: `otel.Tracer(_).Start`, `span.SpanContext().TraceID().String()` and
-- `slog.Default().With`.
pub record Tracing : Type 1 where
  pub Context : Type 0
  pub Span : Type 0
  pub Logger : Type 0
  pub start : String → Context → String → Context × Span
  pub trace_id_of_span : Span → String
  pub default_with : String → String → Logger

pub record Scope (t : Tracing) : Type 0 where
  pub ctx : t.Context
  pub trace_id : String
  pub span : t.Span
  pub log : t.Logger

-- The `n`-th call of `uuid.New` gives `uuid n`.
unfoldable pub get_uuid : (ℕ → String) → ℕ → String
get_uuid uuid n = remove_hyphens (uuid n)

unfoldable pub trace_id_or_new : (ℕ → String) → ℕ → String → String
unfolding get_uuid
trace_id_or_new uuid count trace_id =
    if str_eq trace_id "" || not (len trace_id == 32) then get_uuid uuid count else trace_id

module _ (t : Tracing) (uuid : ℕ → String) (count : ℕ) where
  open t use {Context, start, trace_id_of_span, default_with}

  unfoldable pub child_scope_from_remote_scope : Context → String → Scope t
  child_scope_from_remote_scope ctx name =
      let (tracer_ctx, span) = start "mm-server" ctx name in
      let trace_id = trace_id_or_new uuid count (trace_id_of_span span) in
      record {
        ctx = tracer_ctx;
        trace_id = trace_id;
        span = span;
        log = default_with "traceID" trace_id;
      }

  unfoldable pub new_root_scope : Context → String → String → Scope t
  new_root_scope root_ctx name ab_trace_id =
      let (ctx, span) = start name root_ctx name in
      let trace_id = trace_id_or_new uuid count ab_trace_id in
      record { ctx = ctx; trace_id = trace_id; span = span; log = default_with "traceID" trace_id }
