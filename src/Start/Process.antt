-- ===== src/Start/Process.antt =====
-- main.go as a process: `main` and the two goroutines that it starts, which share the variable
-- `err`, and a goroutine of some call, which nothing recovers when it panics. A signal that comes
-- before `signal.NotifyContext` kills the process and is left out. The command line has no flags,
-- so that `flag.Parse` returns.
use matchmaking_function_grp.Prelude.{ℕ, zero, suc, pos, ◌≡◌, ◌≢◌, String, Option, none, some}
use matchmaking_function_grp.Outcome.{Result, ok, err, panic, Error, Panic}
use matchmaking_function_grp.Common.Tracing.{Sdk, new_tracer_provider}
use matchmaking_function_grp.Start.Defs.{service_name}
use matchmaking_function_grp.Start.Exit.{Exit, exits_with, after_signal}

-- The goroutine that serves metrics, until `http.ListenAndServe` returns, always with an error.
pub data MetricsAt : Type 0 where
  unborn serving : MetricsAt

-- The goroutine that serves calls. `grpcServer.Serve` returns with an error, as long as nobody
-- stops the server; the goroutine has stored it in `err`, or it has found no error there.
pub data ServeAt : Type 0 where
  unborn : ServeAt
  serving : ServeAt
  testing_err : Error → ServeAt
  ended : Error → ServeAt

-- What `main` does next. With a tracer provider or none, it has called `NewTracerProvider`.
pub data MainAt (Provider : Type 0) : Type 0 where
  starting_metrics : MainAt Provider
  opening_port : MainAt Provider
  starting_server : MainAt Provider
  making_provider : MainAt Provider
  testing_err : Option Provider → MainAt Provider
  waiting : Provider → MainAt Provider
  shutting_down : Provider → MainAt Provider

-- `global` is the tracer provider that `otel.SetTracerProvider` got.
pub record Running (Provider : Type 0) : Type 0 where
  pub main : MainAt Provider
  pub metrics : MetricsAt
  pub serve : ServeAt
  pub err : Option Error
  pub global : Option Provider

pub data Process (Provider : Type 0) : Type 0 where
  running : Running Provider → Process Provider
  exited : Exit → Process Provider

module _ (sdk : Sdk) (lower : String → String) (lookup_env : String → Option String)
    (listen : Result (Unit {0})) (shutdown : sdk.TracerProvider → Result (Unit {0})) where
  abbrev State : Type 0
  State = Running sdk.TracerProvider

  abbrev pub new_provider : Result sdk.TracerProvider
  new_provider =
      new_tracer_provider sdk lookup_env (service_name lower lookup_env) "production" (pos 1)

  -- One step of `main` or of a goroutine: an assignment or a test of `err` each.
  pub data Move (s : State) : Process sdk.TracerProvider → Type 0 where
    start_metrics :
        s.main ≡ MainAt.starting_metrics
        → Move s (running (record s { main = MainAt.opening_port; metrics = MetricsAt.serving }))
    metrics_fails : s.metrics ≡ MetricsAt.serving → Move s (exited (exits_with 1))
    open_port :
        s.main ≡ MainAt.opening_port
        → listen ≡ ok tt
        → Move s (running (record s { main = MainAt.starting_server; err = none }))
    open_port_fails :
        {e : Error} → s.main ≡ MainAt.opening_port → listen ≡ err e → Move s (exited (exits_with 1))
    open_port_panics :
        {p : Panic} → s.main ≡ MainAt.opening_port → listen ≡ panic p → Move s (exited Exit.panics)
    start_server :
        s.main ≡ MainAt.starting_server
        → Move s (running (record s { main = MainAt.making_provider; serve = ServeAt.serving }))
    serve_fails :
        (e : Error)
        → s.serve ≡ ServeAt.serving
        → Move s (running (record s { serve = ServeAt.testing_err e; err = some e }))
    serve_sees_error :
        {e x : Error}
        → s.serve ≡ ServeAt.testing_err e
        → s.err ≡ some x
        → Move s (exited (exits_with 1))
    serve_sees_none :
        {e : Error}
        → s.serve ≡ ServeAt.testing_err e
        → s.err ≡ none
        → Move s (running (record s { serve = ServeAt.ended e }))
    handler_panics : s.serve ≢ ServeAt.unborn → Move s (exited Exit.panics)
    make_provider :
        {p : sdk.TracerProvider}
        → s.main ≡ MainAt.making_provider
        → new_provider ≡ ok p
        → Move s (running (record s { main = MainAt.testing_err (some p); err = none }))
    make_provider_fails :
        {e : Error}
        → s.main ≡ MainAt.making_provider
        → new_provider ≡ err e
        → Move s (running (record s { main = MainAt.testing_err none; err = some e }))
    make_provider_panics :
        {p : Panic}
        → s.main ≡ MainAt.making_provider
        → new_provider ≡ panic p
        → Move s (exited Exit.panics)
    main_sees_error :
        {o : Option sdk.TracerProvider} {x : Error}
        → s.main ≡ MainAt.testing_err o
        → s.err ≡ some x
        → Move s (exited (exits_with 1))
    main_sees_none :
        {p : sdk.TracerProvider}
        → s.main ≡ MainAt.testing_err (some p)
        → s.err ≡ none
        → Move s (running (record s { main = MainAt.waiting p; global = some p }))
    receive_signal :
        {p : sdk.TracerProvider}
        → s.main ≡ MainAt.waiting p
        → Move s (running (record s { main = MainAt.shutting_down p }))
    shut_down :
        {p : sdk.TracerProvider}
        → s.main ≡ MainAt.shutting_down p
        → Move s (exited (after_signal sdk shutdown p))

  -- `n` steps.
  pub data Moves (s : State) : ℕ → Process sdk.TracerProvider → Type 0 where
    here : Moves s zero (running s)
    next :
        {n : ℕ} {t : State} {u : Process sdk.TracerProvider}
        → Moves s n (running t)
        → Move t u
        → Moves s (suc n) u

-- `main` has set up the logger, the interceptors and the gRPC server, and has no goroutine yet.
abbrev pub set_up : {Provider : Type 0} → Running Provider
set_up = record {
  main = MainAt.starting_metrics;
  metrics = MetricsAt.unborn;
  serve = ServeAt.unborn;
  err = none;
  global = none;
}
