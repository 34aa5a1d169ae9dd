-- ===== src/Common/TraceIds.antt =====
-- The trace IDs of scopes.
use Prim.Native.Char.{Char, code, len_utf8, len_utf8_def, width}
use Prim.Native.Nat.{compare}
use Prim.Native.String.{len}
use Prim.Native.String.len as String_len
use matchmaking_function_grp.Prelude.{
  ℕ, ◌+◌, ◌≡◌, ◌≢◌, ◌⊎◌, refl, ap, ◌∙◌, String, true, false, inl, inr, Bool-cases, ◌||◌, not, ◌==◌,
  str_eq, eq_iff, remove_hyphens, if◌then◌else◌, arith,
}
use matchmaking_function_grp.Common.Scope.{
  Tracing, get_uuid, trace_id_or_new, child_scope_from_remote_scope, new_root_scope,
}

abbrev pub hyphens : String → ℕ
hyphens String.[] = 0
hyphens (String.◌∷◌ c s) = (if code c == b'-' then 1 else 0) + hyphens s

-- The form xxxxxxxx-xxxx-xxxx-xxxx-xxxxxxxxxxxx, as far as it matters here.
pub record HasUuidForm (s : String) : Type 0 where
  pub bytes : len s ≡ 36
  pub four_hyphens : hyphens s ≡ 4

code-hyphen : (c : Char) → (code c == b'-') ≡ true → code c ≡ b'-'
code-hyphen c h = ground arith

width-hyphen : (c : Char) → (code c == b'-') ≡ true → len_utf8 c ≡ 1
width-hyphen c h =
    (λ i. len_utf8_def c i)
    ∙ ap (λ n. width (compare n 128) (compare n 2048) (compare n 65536)) (code-hyphen c h)

len-cons : (c : Char) (s : String) → len (String.◌∷◌ c s) ≡ len_utf8 c + len s
len-cons c s = String_len.cons c s

pub len-remove_hyphens : (s : String) → len (remove_hyphens s) + hyphens s ≡ len s
unfolding remove_hyphens
len-remove_hyphens String.[] = refl
len-remove_hyphens (String.◌∷◌ c s) = elim (Bool-cases (code c == b'-')) [
  | inl h ↦ rw h (omega (arith, len-cons c s, width-hyphen c h, len-remove_hyphens s))
  | inr h ↦ rw h (omega (arith, len-cons c s, len-cons c (remove_hyphens s), len-remove_hyphens s))
]

len-get_uuid : (uuid : ℕ → String) (n : ℕ) → HasUuidForm (uuid n) → len (get_uuid uuid n) ≡ 32
unfolding get_uuid
len-get_uuid uuid n form = omega (arith, len-remove_hyphens (uuid n), form.bytes, form.four_hyphens)

-- `trace_id` has 32 bytes: it is the given ID, if that has 32, and else the `n`-th UUID.
pub record IsTraceId (uuid : ℕ → String) (n : ℕ) (given trace_id : String) : Type 0 where
  pub bytes : len trace_id ≡ 32
  pub origin :
      (len given ≡ 32) × (trace_id ≡ given) ⊎ (len given ≢ 32) × (trace_id ≡ get_uuid uuid n)

-- The empty text has no 32 bytes either.
given_cases :
    (s : String)
    → ((str_eq s "" || not (len s == 32)) ≡ true) × (len s ≢ 32)
      ⊎ ((str_eq s "" || not (len s == 32)) ≡ false) × (len s ≡ 32)
given_cases s = elim (Bool-cases (str_eq s "")) [
  | inl h ↦ inl (rw h, omega (arith, ap len ((eq_iff s "").0 h), String_len.nil))
  | inr h ↦ elim (Bool-cases (len s == 32)) [
    | inl same ↦ inr (rw (h, same), ground arith)
    | inr other ↦ inl (rw (h, other), ground arith)
  ]
]

trace_id_or_new-IsTraceId :
    (uuid : ℕ → String) (n : ℕ) (given : String)
    → HasUuidForm (uuid n)
    → IsTraceId uuid n given (trace_id_or_new uuid n given)
unfolding trace_id_or_new
trace_id_or_new-IsTraceId uuid n given form = elim (given_cases given) [
  | inl (h, other) ↦ record { bytes = rw h (len-get_uuid uuid n form); origin = inr (other, rw h) }
  | inr (h, same) ↦ record { bytes = rw h same; origin = inl (same, rw h) }
]

-- If the UUIDs that are generated have the usual form, then the trace ID of a scope, from
-- `ChildScopeFromRemoteScope` or from `NewRootScope`, has 32 bytes; it is the one of the span,
-- or the one that is given, if that has 32 bytes, and else the UUID without its hyphens.
pub scope-IsTraceId :
    (t : Tracing) (uuid : ℕ → String) (n m : ℕ) (ctx : t.Context) (name ab_trace_id : String)
    → HasUuidForm (uuid n)
    → HasUuidForm (uuid m)
    → IsTraceId uuid n
        (t.trace_id_of_span (t.start "mm-server" ctx name).1)
        ((child_scope_from_remote_scope t uuid n ctx name).trace_id)
      × IsTraceId uuid m ab_trace_id ((new_root_scope t uuid m ctx name ab_trace_id).trace_id)
unfolding child_scope_from_remote_scope new_root_scope
scope-IsTraceId t uuid n m ctx name ab_trace_id f g = (
  trace_id_or_new-IsTraceId uuid n (t.trace_id_of_span (t.start "mm-server" ctx name).1) f,
  trace_id_or_new-IsTraceId uuid m ab_trace_id g,
)
