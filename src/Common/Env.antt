-- ===== src/Common/Env.antt =====
-- pkg/common/utils.go: environment variables and trace IDs; and the log levels of main.go and
-- pkg/common/logging.go.
use Prim.Native.String.{◌++◌}
use matchmaking_function_grp.Prelude.{
  ℕ, ℤ, pos, String, ◌||◌, Option, none, some, List, [], ◌∷◌, str_eq, if◌then◌else◌,
}

-- `lookup_env` is `os.LookupEnv`.
unfoldable pub get_env : (String → Option String) → String → String → String
get_env lookup_env key fallback = elim (lookup_env key) [ none ↦ fallback | some value ↦ value ]

-- `itoa` and `atoi` are the functions of strconv; `none` is an error.
unfoldable pub get_env_int :
    (ℤ → String) → (String → Option ℤ) → (String → Option String) → String → ℤ → ℤ
get_env_int itoa atoi lookup_env key fallback =
    elim (atoi (get_env lookup_env key (itoa fallback))) [ none ↦ fallback | some value ↦ value ]

-- What the code calls of math/rand.
pub record RandLib : Type 1 where
  pub Source : Type 0
  pub Rand : Type 0
  pub new_source : ℤ → Source
  pub new_rand : Source → Rand
  pub intn : Rand → ℕ → ℕ

-- `now` is `time.Now().UnixNano()`.
unfoldable pub generate_random_int : RandLib → ℤ → ℕ
generate_random_int rand now = rand.intn (rand.new_rand (rand.new_source now)) 10000

-- `MakeTraceID`. `sprintf` is `fmt.Sprintf` with no arguments, from its format.
module _ (sprintf : String → String) where
  unfoldable pub join_identifiers : String → List String → String
  join_identifiers t_id [] = t_id
  join_identifiers t_id (i ∷ identifiers) =
      join_identifiers (sprintf (t_id ++ i ++ "_")) identifiers

  unfoldable pub make_trace_id : (ℤ → String) → RandLib → ℤ → List String → String
  unfolding join_identifiers generate_random_int
  make_trace_id itoa rand now identifiers =
      sprintf (join_identifiers "" identifiers ++ itoa (pos (generate_random_int rand now)))

pub data Level : Type 0 where
  level_debug level_info level_warn level_error : Level

-- `lower` is `strings.ToLower`.
unfoldable pub parse_slog_level : (String → String) → String → Level
parse_slog_level lower level_str =
    let l = lower level_str in
    if str_eq l "debug"
    then level_debug
    else if str_eq l "info"
    then level_info
    else if str_eq l "warn" || str_eq l "warning"
    then level_warn
    else if str_eq l "error" || str_eq l "fatal" || str_eq l "panic"
    then level_error
    else level_info
