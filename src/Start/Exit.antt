-- ===== src/Start/Exit.antt =====
-- How main.go ends, apart from its other goroutines, which exit with 1 when they cannot serve.
use matchmaking_function_grp.Prelude.{ℕ, pos, String, Option}
use matchmaking_function_grp.Outcome.{Result, ok, err, panic}
use matchmaking_function_grp.Common.Tracing.{Sdk, new_tracer_provider}
use matchmaking_function_grp.Start.Defs.{service_name}

pub data Exit : Type 0 where
  exits_with : ℕ → Exit
  panics : Exit

module _ (sdk : Sdk) where
  -- After the signal: the deferred `Shutdown` of the tracer provider.
  unfoldable pub after_signal : (sdk.TracerProvider → Result (Unit {0})) → sdk.TracerProvider → Exit
  after_signal shutdown provider = elim (shutdown provider) [
    | ok u ↦ exits_with 0
    | err e ↦ exits_with 1
    | panic p ↦ panics
  ]

  unfoldable pub with_provider :
      (sdk.TracerProvider → Result (Unit {0})) → Result sdk.TracerProvider → Exit
  unfolding after_signal
  with_provider shutdown (ok provider) = after_signal shutdown provider
  with_provider shutdown (err e) = exits_with 1
  with_provider shutdown (panic p) = panics

  -- `listen` is what `net.Listen` gives for the port 6565.
  unfoldable pub exit_of :
      (String → String)
      → (String → Option String)
      → Result (Unit {0})
      → (sdk.TracerProvider → Result (Unit {0}))
      → Exit
  unfolding with_provider new_tracer_provider service_name
  exit_of lower lookup_env listen shutdown = elim listen [
    | ok u ↦
        with_provider shutdown
          (new_tracer_provider sdk lookup_env (service_name lower lookup_env) "production" (pos 1))
    | err e ↦ exits_with 1
    | panic p ↦ panics
  ]
