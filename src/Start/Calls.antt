-- ===== src/Start/Calls.antt =====
-- Which calls reach their handlers through the interceptors that main.go puts before them, and how
-- often tokens are refreshed.
use matchmaking_function_grp.Prelude.{
  ℕ, ℤ, pos, mul_int, mul_int-pos, ◌*◌, ◌^◌, ◌≡◌, ◌≢◌, ◌⊎◌, Bool-cases, str_eq, some_injective, ◌<◌,
  inl, inr, refl, ap, sym, subst, ◌∙◌, String, Bool, true, false, Option, none, some, if◌then◌else◌,
  List, [], ◌∷◌,
}
use text.Mathlib.TextEquality.{eq_iff}
use matchmaking_function_grp.Outcome.{Result, err, status, Code}
use matchmaking_function_grp.Common.Auth.{
  Validate, Metadata, unary_auth_server_intercept, stream_auth_server_intercept,
}
use matchmaking_function_grp.Common.Authorized.{
  IsOpen, IsAuthorized, unary_auth_server_intercept-cases,
}
use matchmaking_function_grp.Common.Validator.{Iam, TokenMethods}
use matchmaking_function_grp.Common.Env.{get_env, get_env_int}
use matchmaking_function_grp.Start.Defs.{
  UnaryServerInterceptor, StreamServerInterceptor, is_auth_enabled, unary_server_interceptors,
  stream_server_interceptors, refresh_duration, start_validator,
}

-- `grpc.ChainUnaryInterceptor` and `grpc.ChainStreamInterceptor`: the first interceptor is the
-- outermost, and the last one calls the handler.
pub record IsChain {A : Type 0} (chain : List (UnaryServerInterceptor A) → UnaryServerInterceptor A)
    : Type 0 where
  pub chain_nil :
      (incoming : Option Metadata) (full_method : String) (handler : Result A)
      → chain [] incoming full_method handler ≡ handler
  pub chain_cons :
      (i : UnaryServerInterceptor A) (is : List (UnaryServerInterceptor A))
      (incoming : Option Metadata) (full_method : String) (handler : Result A)
      → chain (i ∷ is) incoming full_method handler
        ≡ i incoming full_method (chain is incoming full_method handler)

-- The interceptor calls the handler and gives its result back, as those for metrics and logs do.
abbrev pub IsObserver : {A : Type 0} → UnaryServerInterceptor A → Type 0
IsObserver {A} i =
    (incoming : Option Metadata) (full_method : String) (handler : Result A)
    → i incoming full_method handler ≡ handler

-- The variable is set, to a text that is not "true" in lower case.
abbrev pub IsSwitchedOff : (String → String) → (String → Option String) → Type 0
IsSwitchedOff lower lookup_env =
    (value : String) × (lookup_env "PLUGIN_GRPC_SERVER_AUTH_ENABLED" ≡ some value)
    × (lower value ≢ "true")

-- `enabled` tells whether it is not switched off.
abbrev Tells : Bool → Type 0 → Type 0
Tells enabled off = (enabled ≡ true) × (¬ off) ⊎ (enabled ≡ false) × off

not_both : (b : Bool) → b ≡ true → b ≢ false
not_both b h e = cc (sym h ∙ e)

abbrev or_true : Option String → String
or_true none = "true"
or_true (some value) = value

is_auth_enabled_lem :
    (lower : String → String) (lookup_env : String → Option String) (o : Option String)
    → lookup_env "PLUGIN_GRPC_SERVER_AUTH_ENABLED" ≡ o
    → is_auth_enabled lower lookup_env ≡ str_eq (lower (or_true o)) "true"
unfolding is_auth_enabled get_env
is_auth_enabled_lem lower lookup_env o e = ap (λ x. str_eq (lower (or_true x)) "true") e

from_variable :
    (lower : String → String) (lookup_env : String → Option String) (o : Option String)
    → lower "true" ≡ "true"
    → lookup_env "PLUGIN_GRPC_SERVER_AUTH_ENABLED" ≡ o
    → Tells (is_auth_enabled lower lookup_env) (IsSwitchedOff lower lookup_env)
from_variable lower lookup_env none law e = inl (
  is_auth_enabled_lem lower lookup_env none e ∙ (eq_iff (lower "true") "true").1 law,
  λ (v, f, n). cc (sym e ∙ f),
)
from_variable lower lookup_env (some value) law e =
    elim (Bool-cases (str_eq (lower value) "true")) [
      | inl on ↦ inl (
        is_auth_enabled_lem lower lookup_env (some value) e ∙ on,
        λ (v, f, n). n (ap lower (some_injective (sym f ∙ e)) ∙ (eq_iff (lower value) "true").0 on),
      )
      | inr off ↦ inr (
        is_auth_enabled_lem lower lookup_env (some value) e ∙ off,
        (
          value,
          e,
          λ f. not_both (str_eq (lower value) "true") ((eq_iff (lower value) "true").1 f) off,
        ),
      )
    ]

is_auth_enabled-Tells :
    (lower : String → String) (lookup_env : String → Option String)
    → lower "true" ≡ "true"
    → Tells (is_auth_enabled lower lookup_env) (IsSwitchedOff lower lookup_env)
is_auth_enabled-Tells lower lookup_env law =
    from_variable lower lookup_env (lookup_env "PLUGIN_GRPC_SERVER_AUTH_ENABLED") law refl

-- Authorization is off, or the method is one of reflection or of health, or the call is authorized.
abbrev pub MayPass : Type 0 → Option Validate → String → Option Metadata → String → Type 0
MayPass off validator namespace incoming full_method =
    off ⊎ IsOpen full_method ⊎ IsAuthorized validator namespace incoming

-- `call` is what the handler does, for a call that may pass, and else a status.
abbrev pub IsServed : {A : Type 0} → Type 0 → Result A → Result A → Type 0
IsServed may_pass call handler =
    may_pass × (call ≡ handler)
    ⊎ (¬ may_pass) × ((code : Code) × (message : String) × (call ≡ err (status code message)))

interceptor_cases :
    {A : Type 0} (off : Type 0) (on : ¬ off) (validator : Option Validate) (namespace : String)
    (incoming : Option Metadata) (full_method : String) (handler : Result A)
    → IsServed
        (MayPass off validator namespace incoming full_method)
        (unary_auth_server_intercept validator namespace incoming full_method handler)
        handler
interceptor_cases off on validator namespace incoming full_method handler =
    elim (unary_auth_server_intercept-cases validator namespace incoming full_method handler) [
      | inl (pass, same) ↦ inl (inr pass, same)
      | inr (closed, unauthorized, refused) ↦ inr (
        λ m. elim m [
          | inl h ↦ on h
          | inr (inl open_method) ↦ closed open_method
          | inr (inr a) ↦ unauthorized a
        ],
        refused,
      )
    ]

stream_auth_server_intercept_lem :
    (validator : Option Validate) (namespace : String) (incoming : Option Metadata)
    (full_method : String) (handler : Result (Unit {0}))
    → stream_auth_server_intercept validator namespace incoming full_method handler
      ≡ unary_auth_server_intercept validator namespace incoming full_method handler
unfolding stream_auth_server_intercept unary_auth_server_intercept
stream_auth_server_intercept_lem validator namespace incoming full_method handler = refl

module _ {A : Type 0} (chain : List (UnaryServerInterceptor A) → UnaryServerInterceptor A)
    (laws : IsChain chain) (metrics logging : UnaryServerInterceptor A) (m : IsObserver metrics)
    (l : IsObserver logging) where
  chain_two :
      (is : List (UnaryServerInterceptor A)) (incoming : Option Metadata) (full_method : String)
      (handler : Result A)
      → chain (metrics ∷ logging ∷ is) incoming full_method handler
        ≡ chain is incoming full_method handler
  chain_two is incoming full_method handler =
      laws.chain_cons metrics (logging ∷ is) incoming full_method handler
      ∙ (m incoming full_method _
          ∙ (laws.chain_cons logging is incoming full_method handler ∙ l incoming full_method _))

  -- The interceptors of main.go, the last one with authorization only.
  chain_three :
      (auth : UnaryServerInterceptor A) (enabled : Bool) (incoming : Option Metadata)
      (full_method : String) (handler : Result A)
      → chain
          (if enabled then metrics ∷ logging ∷ auth ∷ [] else metrics ∷ logging ∷ [])
          incoming
          full_method
          handler
        ≡ (if enabled then auth incoming full_method handler else handler)
  chain_three auth true incoming full_method handler =
      chain_two (auth ∷ []) incoming full_method handler
      ∙ (laws.chain_cons auth [] incoming full_method handler
          ∙ ap (auth incoming full_method) (laws.chain_nil incoming full_method handler))
  chain_three auth false incoming full_method handler =
      chain_two [] incoming full_method handler ∙ laws.chain_nil incoming full_method handler

serving_cases :
    {A : Type 0} (enabled : Bool) (off : Type 0) (validator : Option Validate) (namespace : String)
    (incoming : Option Metadata) (full_method : String) (handler : Result A)
    → Tells enabled off
    → IsServed
        (MayPass off validator namespace incoming full_method)
        (if enabled
          then unary_auth_server_intercept validator namespace incoming full_method handler
          else handler)
        handler
serving_cases enabled off validator namespace incoming full_method handler (inl (e, on)) =
    rw e (interceptor_cases off on validator namespace incoming full_method handler)
serving_cases enabled off validator namespace incoming full_method handler (inr (e, is_off)) =
    inl (inl is_off, rw e refl)

-- If `strings.ToLower` leaves `true` as it is, gRPC chains interceptors with the first one
-- outermost, and those for metrics and logs give back what the handler does: through the
-- interceptors that main.go sets up, a unary call or a stream does what its handler does if
-- PLUGIN_GRPC_SERVER_AUTH_ENABLED is set to a text that is not `true` in lower case, the name
-- of the method starts with that of the reflection or of the health service, or the call is
-- authorized by the validator that main.go makes; any other call ends with a status.
pub calls-IsServed :
    (lower : String → String) (itoa : ℤ → String) (atoi : String → Option ℤ)
    (lookup_env : String → Option String) (iam : Iam) (methods : TokenMethods iam)
    (service : iam.OAuth20Service) (namespace : String) {A : Type 0}
    (chain_unary : List (UnaryServerInterceptor A) → UnaryServerInterceptor A)
    (chain_stream : List StreamServerInterceptor → StreamServerInterceptor)
    (metrics logging : UnaryServerInterceptor A)
    (stream_metrics stream_logging : StreamServerInterceptor)
    → lower "true" ≡ "true"
    → IsChain chain_unary
    → IsChain chain_stream
    → IsObserver metrics
    → IsObserver logging
    → IsObserver stream_metrics
    → IsObserver stream_logging
    → (incoming : Option Metadata) (full_method : String) (handler : Result A)
      (stream_handler : Result (Unit {0}))
    → IsServed
        (MayPass
          (IsSwitchedOff lower lookup_env)
          (start_validator lower itoa atoi lookup_env iam methods service)
          namespace
          incoming
          full_method)
        (chain_unary
          (unary_server_interceptors lower lookup_env metrics logging
            (start_validator lower itoa atoi lookup_env iam methods service)
            namespace)
          incoming
          full_method
          handler)
        handler
      × IsServed
          (MayPass
            (IsSwitchedOff lower lookup_env)
            (start_validator lower itoa atoi lookup_env iam methods service)
            namespace
            incoming
            full_method)
          (chain_stream
            (stream_server_interceptors lower lookup_env stream_metrics stream_logging
              (start_validator lower itoa atoi lookup_env iam methods service)
              namespace)
            incoming
            full_method
            stream_handler)
          stream_handler
unfolding unary_server_interceptors stream_server_interceptors
calls-IsServed lower itoa atoi lookup_env iam methods service namespace chain_unary chain_stream
      metrics logging stream_metrics stream_logging law u s m l sm sl incoming full_method handler
      stream_handler =
    let enabled = is_auth_enabled lower lookup_env in
    let off = IsSwitchedOff lower lookup_env in
    let tells = is_auth_enabled-Tells lower lookup_env law in
    let validator = start_validator lower itoa atoi lookup_env iam methods service in
    (
      subst (λ call. IsServed (MayPass off validator namespace incoming full_method) call handler)
          (sym (
            chain_three chain_unary u metrics logging m l
              (unary_auth_server_intercept validator namespace) enabled incoming full_method
              handler))
          (serving_cases enabled off validator namespace incoming full_method handler tells),
      subst
          (λ call.
            IsServed (MayPass off validator namespace incoming full_method) call stream_handler)
          (sym (
            chain_three chain_stream s stream_metrics stream_logging sm sl
              (stream_auth_server_intercept validator namespace) enabled incoming full_method
              stream_handler
            ∙ ap (λ call. if enabled then call else stream_handler)
                (stream_auth_server_intercept_lem validator namespace incoming full_method
                  stream_handler)))
          (serving_cases enabled off validator namespace incoming full_method stream_handler tells),
    )

-- The number that a variable holds, or `fallback` if it is not set or holds none.
abbrev pub number_or : (String → Option ℤ) → ℤ → Option String → ℤ
number_or atoi fallback none = fallback
number_or atoi fallback (some text) = elim (atoi text) [ none ↦ fallback | some n ↦ n ]

get_env_int_lem :
    (itoa : ℤ → String) (atoi : String → Option ℤ) (lookup_env : String → Option String)
    (key : String) (fallback : ℤ)
    → atoi (itoa fallback) ≡ some fallback
    → get_env_int itoa atoi lookup_env key fallback ≡ number_or atoi fallback (lookup_env key)
unfolding get_env_int get_env
get_env_int_lem itoa atoi lookup_env key fallback law =
    elim (lookup_env key)
      as (λ o.
        elim (atoi (elim o [ none ↦ itoa fallback | some value ↦ value ])) [
          | none ↦ fallback
          | some value ↦ value
        ]
        ≡ number_or atoi fallback o) [ none ↦ rw law | some text ↦ refl ]

-- If `strconv.Atoi` reads what `strconv.Itoa` writes for 600, then with a number of seconds in
-- REFRESH_INTERVAL, or 600 if it is not set or holds no number, the refresh interval is that
-- many times 10^9 nanoseconds, as long as this is not negative and fits into 64 bits.
pub refresh_duration_lem :
    (itoa : ℤ → String) (atoi : String → Option ℤ) (lookup_env : String → Option String) (n : ℕ)
    → atoi (itoa (pos 600)) ≡ some (pos 600)
    → number_or atoi (pos 600) (lookup_env "REFRESH_INTERVAL") ≡ pos n
    → n * 1000000000 < 2 ^ 63
    → refresh_duration itoa atoi lookup_env ≡ pos (n * 1000000000)
unfolding refresh_duration
refresh_duration_lem itoa atoi lookup_env n law h bound =
    ap (λ s. mul_int s (pos 1000000000))
      (get_env_int_lem itoa atoi lookup_env "REFRESH_INTERVAL" (pos 600) law ∙ h)
    ∙ mul_int-pos n 1000000000 bound
