-- ===== src/Examples/Start.antt =====
-- The start of the program in a small environment, with the packages as simple functions.
use Prim.Native.Char.{code}
use Prim.Native.String.{slice, ◌++◌}
use matchmaking_function_grp.Prelude.{
  ℕ, zero, suc, ℤ, pos, negsuc, ltb, ◌+◌, ◌-◌, ◌*◌, ◌/◌, ◌%◌, ◌≡◌, refl, ◌||◌, String, Option, none,
  some, List, [], ◌∷◌, str_eq, if◌then◌else◌, arith,
}
use matchmaking_function_grp.Outcome.{ok, err, other}
use matchmaking_function_grp.Common.Validator.{Iam, TokenMethods}
use matchmaking_function_grp.Start.{
  UnaryServerInterceptor, unary_server_interceptors, stream_server_interceptors, refresh_duration,
  start_validator, service_name,
}
use matchmaking_function_grp.Common.Tracing.{Sdk, new_tracer_provider}
use matchmaking_function_grp.Start.Exit.{Exit, exits_with, exit_of, after_signal}
use matchmaking_function_grp.Start.Process.{
  MainAt, ServeAt, Running, running, exited, new_provider, Move, Moves, here, next, set_up,
}
use matchmaking_function_grp.Start.Ends.{process-loses_error}
use matchmaking_function_grp.Start.Returns.{process-Ends}
use matchmaking_function_grp.Start.Calls.{
  IsChain, IsObserver, IsSwitchedOff, MayPass, IsServed, calls-IsServed, refresh_duration_lem,
}
use matchmaking_function_grp.Examples.Common.{one_token, bearer, method, answer}

-- Decimal numbers of at most `fuel` digits.
abbrev print : ℕ → ℕ → String
print zero n = ""
print (suc fuel) n =
    let front = print fuel (n / 10) in
    (if ltb n 10 then "" else front) ++ slice "0123456789" (n % 10) (n % 10 + 1)

abbrev itoa : ℤ → String
itoa (pos n) = print 20 n
itoa (negsuc n) = "-" ++ print 20 (suc n)

abbrev scan : String → ℕ → Option ℕ
scan String.[] n = some n
scan (String.◌∷◌ c s) n =
    let rest = scan s (n * 10 + (code c - b'0')) in
    if ltb (code c) b'0' || ltb b'9' (code c) then none else rest

abbrev as_int : Option ℕ → Option ℤ
as_int none = none
as_int (some n) = some (pos n)

-- Only with no sign.
abbrev atoi : String → Option ℤ
atoi s = if str_eq s "" then none else as_int (scan s 0)

itoa-atoi : atoi (itoa (pos 600)) ≡ some (pos 600)
itoa-atoi = refl

-- Tokens are refreshed each minute; nothing else is set.
abbrev lookup_env : String → Option String
lookup_env key = if str_eq key "REFRESH_INTERVAL" then some "60" else none

abbrev same_text : String → String
same_text s = s

abbrev iam : Iam
iam = record {
  OAuth20Service = Unit {0};
  Filter = Unit {0};
  JwkSet = Unit {0};
  Claims = Unit {0};
  Encoding = Unit {0};
  PublicKey = Unit {0};
  Time = Unit {0};
  Role = Unit {0};
  zero_claims = tt;
  unpadded_url_encoding = tt;
}

abbrev methods : TokenMethods iam
methods = record { initialize = λ v. (v, none); validate = λ v. one_token }

-- Each interceptor around the rest of them.
abbrev chain : {A : Type 0} → List (UnaryServerInterceptor A) → UnaryServerInterceptor A
chain [] incoming full_method handler = handler
chain (i ∷ is) incoming full_method handler =
    i incoming full_method (chain is incoming full_method handler)

chain-IsChain : {A : Type 0} → IsChain {A = A} chain
chain-IsChain = record {
  chain_nil = λ incoming full_method handler. refl;
  chain_cons = λ i is incoming full_method handler. refl;
}

abbrev observer : {A : Type 0} → UnaryServerInterceptor A
observer incoming full_method handler = handler

observer-IsObserver : {A : Type 0} → IsObserver {A = A} observer
observer-IsObserver incoming full_method handler = refl

named : service_name same_text lookup_env ≡ "extend-app-matchmaking-func"
unfolding service_name
named = refl

calls-IsServed_example :
    IsServed
      (MayPass
        (IsSwitchedOff same_text lookup_env)
        (start_validator same_text itoa atoi lookup_env iam methods tt)
        "n"
        (some (bearer "Bearer secret"))
        method)
      (chain
        (unary_server_interceptors same_text lookup_env observer observer
          (start_validator same_text itoa atoi lookup_env iam methods tt)
          "n")
        (some (bearer "Bearer secret"))
        method
        answer)
      answer
    × IsServed
        (MayPass
          (IsSwitchedOff same_text lookup_env)
          (start_validator same_text itoa atoi lookup_env iam methods tt)
          "n"
          (some (bearer "Bearer secret"))
          method)
        (chain
          (stream_server_interceptors same_text lookup_env observer observer
            (start_validator same_text itoa atoi lookup_env iam methods tt)
            "n")
          (some (bearer "Bearer secret"))
          method
          (ok tt))
        (ok tt)
calls-IsServed_example =
    calls-IsServed same_text itoa atoi lookup_env iam methods tt "n" chain chain observer observer
      observer observer refl chain-IsChain chain-IsChain observer-IsObserver observer-IsObserver
      observer-IsObserver observer-IsObserver (some (bearer "Bearer secret")) method answer (ok tt)

each_minute : refresh_duration itoa atoi lookup_env ≡ pos (60 * 1000000000)
each_minute = refresh_duration_lem itoa atoi lookup_env 60 itoa-atoi refl (omega arith)

-- A zipkin that knows only the default endpoint.
abbrev local_sdk : Sdk
local_sdk = record {
  Exporter = String;
  KeyValue = String × String;
  Resource = List (String × String);
  TracerProvider = String × List (String × String);
  zipkin_new = λ url.
      if str_eq url "http://localhost:9411/api/v2/spans" then ok url else err (other "bad URL");
  service_name_key = λ name. ("service.name", name);
  string_attribute = λ key value. (key, value);
  int_attribute = λ key value. (key, itoa value);
  resource_of = λ attributes. attributes;
  provider_of = λ exporter timeout resource. (exporter, resource);
}

signalled : exit_of local_sdk same_text lookup_env (ok tt) (λ provider. ok tt) ≡ exits_with 0
unfolding exit_of
signalled = refl

port_taken :
    exit_of local_sdk same_text lookup_env
      (err (other "address already in use"))
      (λ provider. ok tt)
    ≡ exits_with 1
unfolding exit_of
port_taken = refl

no_zipkin :
    exit_of local_sdk same_text (λ key. some "zipkin") (ok tt) (λ provider. ok tt) ≡ exits_with 1
unfolding exit_of
no_zipkin = refl

abbrev local_provider : local_sdk.TracerProvider
unfolding service_name new_tracer_provider
local_provider = (
  "http://localhost:9411/api/v2/spans",
  ("service.name", "extend-app-matchmaking-func")
      ∷ ("environment", "production")
      ∷ ("ID", "1")
      ∷ [],
)

provided :
    new_provider local_sdk same_text lookup_env (ok tt) (λ provider. ok tt) ≡ ok local_provider
unfolding service_name new_tracer_provider
provided = refl

process-loses_error_example :
    (k : ℕ) × (s : Running local_sdk.TracerProvider) × Moves local_sdk same_text lookup_env
      (ok tt)
      (λ provider. ok tt)
      set_up
      k
      (running s)
    × (s.main ≡ MainAt.waiting local_provider)
    × (s.serve ≡ ServeAt.ended (other "accept"))
    × Moves local_sdk same_text lookup_env
        (ok tt)
        (λ provider. ok tt)
        s
        2
        (exited (after_signal local_sdk (λ provider. ok tt) local_provider))
process-loses_error_example =
    process-loses_error local_sdk same_text lookup_env (ok tt) (λ provider. ok tt) local_provider
      (other "accept") refl provided

-- The port is open, and metrics are served.
abbrev opened :
    (s : Running local_sdk.TracerProvider) × Moves local_sdk same_text lookup_env
      (ok tt)
      (λ provider. ok tt)
      set_up
      2
      (running s)
opened = (_, next (next here (Move.start_metrics refl)) (Move.open_port refl refl))

process-Ends_example :
    (k : ℕ) × Moves local_sdk same_text lookup_env
      (ok tt)
      (λ provider. ok tt)
      opened.0
      k
      (exited (exit_of local_sdk same_text lookup_env (ok tt) (λ provider. ok tt)))
process-Ends_example =
    process-Ends local_sdk same_text lookup_env (ok tt) (λ provider. ok tt) 2 opened.0 opened.1 refl
