-- ===== src/Common/Authorized.antt =====
-- Which calls reach their handler.
use matchmaking_function_grp.Prelude.{
  some_injective, String, ◌≡◌, ◌≢◌, ◌⊎◌, inl, inr, refl, ap, sym, ◌∙◌, Bool, Bool-cases,
  if◌then◌else◌, true, false, Option, none, some, List, [], ◌∷◌,
}
use text.Mathlib.TextBridge.{IsPrefix}
use text.Mathlib.TextEquality.{starts_with_iff}
use matchmaking_function_grp.Outcome.{
  Result, ok, err, status, Code, internal, unauthenticated, permission_denied,
}
use matchmaking_function_grp.Common.Auth.{
  Validate, Metadata, values_of, trim_prefix, skip_check_authorization_metadata, denied,
  check_header, check_authorization_metadata, unary_auth_server_intercept,
}

-- The method is one of reflection or of health.
abbrev pub IsOpen : String → Type 0
IsOpen full_method =
    IsPrefix "/grpc.reflection.v1alpha.ServerReflection/" full_method
    ⊎ IsPrefix "/grpc.health.v1.Health/" full_method

skips : Bool → Bool → Bool
skips reflection health = if reflection then true else if health then true else false

skips-true : (r h : Bool) → skips r h ≡ true → (r ≡ true) ⊎ (h ≡ true)
unfolding skips
skips-true true h e = inl refl
skips-true false true e = inr refl
skips-true false false e = cc

skips-false : (r h : Bool) → skips r h ≡ false → (r ≢ true) × (h ≢ true)
unfolding skips
skips-false true h e = cc
skips-false false true e = cc
skips-false false false e = (λ f. cc f, λ f. cc f)

pub skip-IsOpen :
    (full_method : String)
    → (skip_check_authorization_metadata full_method ≡ true → IsOpen full_method)
      × (skip_check_authorization_metadata full_method ≡ false → ¬ IsOpen full_method)
unfolding skip_check_authorization_metadata skips
skip-IsOpen full_method =
    let reflection : String = "/grpc.reflection.v1alpha.ServerReflection/" in
    let health : String = "/grpc.health.v1.Health/" in
    (
      λ e. elim (skips-true _ _ e) [
        | inl r ↦ inl ((starts_with_iff full_method reflection).0 r)
        | inr h ↦ inr ((starts_with_iff full_method health).0 h)
      ],
      λ e o.
          let (r, h) = skips-false _ _ e in
          elim o [
            | inl p ↦ r ((starts_with_iff full_method reflection).1 p)
            | inr p ↦ h ((starts_with_iff full_method health).1 p)
          ],
    )

-- A validator is set, the first value under "authorization" is there, and the validator accepts it
-- without its "Bearer " prefix.
pub record IsAuthorized (validator : Option Validate) (namespace : String)
    (incoming : Option Metadata) : Type 0 where
  pub validate : Validate
  pub meta : Metadata
  pub header : String
  pub more : List String
  pub is_set : validator ≡ some validate
  pub has_meta : incoming ≡ some meta
  pub has_header : values_of "authorization" meta ≡ some (header ∷ more)
  pub accepts : validate (trim_prefix header "Bearer ") namespace ≡ none

-- The check fails, and with one of the codes for it.
pub record IsRefused (result : Result (Unit {0})) : Type 0 where
  pub code : Code
  pub message : String
  pub refused : result ≡ err (status code message)

denied-cases : (o : Option String) → (o ≡ none) ⊎ IsRefused (denied o)
denied-cases none = inl refl
denied-cases (some message) =
    inr (record { code = permission_denied; message = message; refused = refl })

not-IsRefused : (o : Option String) → o ≡ none → ¬ IsRefused (denied o)
not-IsRefused none h r = cc r.refused
not-IsRefused (some message) h r = cc

same_header :
    {h k : String} {xs ys : List String}
    → ◌≡◌ {A = Option (List String)} (some (h ∷ xs)) (some (k ∷ ys))
    → h ≡ k
same_header e = cc

module _ (validate : Validate) (namespace : String) (meta : Metadata) where
  not-IsAuthorized :
      (o : Option (List String))
      → values_of "authorization" meta ≡ o
      → ((header : String) (more : List String)
          → o ≡ some (header ∷ more)
          → validate (trim_prefix header "Bearer ") namespace ≢ none)
      → ¬ IsAuthorized (some validate) namespace (some meta)
  not-IsAuthorized o e h a =
      h a.header a.more
        (sym e ∙ ap (values_of "authorization") (some_injective a.has_meta) ∙ a.has_header)
        (ap (λ (v : Validate). v (trim_prefix a.header "Bearer ") namespace)
            (some_injective a.is_set)
          ∙ a.accepts)

  header_cases :
      (o : Option (List String))
      → values_of "authorization" meta ≡ o
      → IsAuthorized (some validate) namespace (some meta)
          × (check_header validate namespace o ≡ ok tt)
        ⊎ (¬ IsAuthorized (some validate) namespace (some meta))
          × IsRefused (check_header validate namespace o)
  unfolding check_header
  header_cases none e = inr (
    not-IsAuthorized none e (λ header more f. cc),
    record {
      code = unauthenticated;
      message = "authorization metadata is missing";
      refused = refl;
    },
  )
  header_cases (some []) e = inr (
    not-IsAuthorized (some []) e (λ header more f. cc),
    record {
      code = unauthenticated;
      message = "authorization metadata length is 0";
      refused = refl;
    },
  )
  header_cases (some (header ∷ more)) e =
      elim (denied-cases (validate (trim_prefix header "Bearer ") namespace)) [
        | inl accepts ↦ inl (
          record {
            validate = validate;
            meta = meta;
            header = header;
            more = more;
            is_set = refl;
            has_meta = refl;
            has_header = e;
            accepts = accepts;
          },
          rw accepts,
        )
        | inr refused ↦ inr (
          not-IsAuthorized (some (header ∷ more)) e (λ h m f accepts.
              not-IsRefused _
                (ap (λ x. validate (trim_prefix x "Bearer ") namespace) (same_header f) ∙ accepts)
                refused),
          refused,
        )
      ]

-- `checkAuthorizationMetadata` has no error for an authorized call, and one of its own errors
-- for any other.
pub check_authorization_metadata-cases :
    (validator : Option Validate) (namespace : String) (incoming : Option Metadata)
    → IsAuthorized validator namespace incoming
        × (check_authorization_metadata validator namespace incoming ≡ ok tt)
      ⊎ (¬ IsAuthorized validator namespace incoming)
        × IsRefused (check_authorization_metadata validator namespace incoming)
unfolding check_authorization_metadata
check_authorization_metadata-cases none namespace incoming = inr (
  λ a. cc a.is_set,
  record { code = internal; message = "authorization token validator is not set"; refused = refl },
)
check_authorization_metadata-cases (some validate) namespace none = inr (
  λ a. cc a.has_meta,
  record { code = unauthenticated; message = "metadata is missing"; refused = refl },
)
check_authorization_metadata-cases (some validate) namespace (some meta) =
    header_cases validate namespace meta (values_of "authorization" meta) refl

-- A call reaches its handler, with the handler's result, if its method starts with
-- `/grpc.reflection.v1alpha.ServerReflection/` or `/grpc.health.v1.Health/` or if it is
-- authorized; any other call ends with a status of the check, without the handler.
pub unary_auth_server_intercept-cases :
    {A : Type 0} (validator : Option Validate) (namespace : String) (incoming : Option Metadata)
    (full_method : String) (handler : Result A)
    → (IsOpen full_method ⊎ IsAuthorized validator namespace incoming)
        × (unary_auth_server_intercept validator namespace incoming full_method handler ≡ handler)
      ⊎ (¬ IsOpen full_method)
        × (¬ IsAuthorized validator namespace incoming)
        × ((code : Code) × (message : String) × (unary_auth_server_intercept validator namespace
                incoming full_method handler
              ≡ err (status code message)))
unfolding unary_auth_server_intercept
unary_auth_server_intercept-cases validator namespace incoming full_method handler =
    let (open_method, closed_method) = skip-IsOpen full_method in
    elim (Bool-cases (skip_check_authorization_metadata full_method)) [
      | inl skip ↦ inl (inl (open_method skip), rw skip)
      | inr checked ↦ elim (check_authorization_metadata-cases validator namespace incoming) [
        | inl (a, passed) ↦ inl (inr a, rw (checked, passed))
        | inr (n, r) ↦ inr (closed_method checked, n, (r.code, r.message, rw (checked, r.refused)))
      ]
    ]
