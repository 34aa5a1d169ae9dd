-- ===== src/Common/Logging.antt =====
-- `InterceptorLogger` of pkg/common/logging.go: what it gives to `logger.LogAttrs`. The levels of the
-- package logging, and the iterator over its fields, are parameters.
use matchmaking_function_grp.Prelude.{String, List, [], ◌∷◌, Bool, if◌then◌else◌}
use matchmaking_function_grp.Common.Env.{Level, level_debug, level_info, level_warn, level_error}

-- `is l k`: whether a level is one of the four of the package. `iterate` gives the pairs that
-- `Fields(fields).Iterator()` goes through.
pub record LoggingPackage : Type 1 where
  pub Any : Type 0
  pub Attr : Type 0
  pub LoggingLevel : Type 0
  pub same_level : LoggingLevel → LoggingLevel → Bool
  pub debug : LoggingLevel
  pub info : LoggingLevel
  pub warn : LoggingLevel
  pub error : LoggingLevel
  pub iterate : List Any → List (String × Any)
  pub slog_any : String → Any → Attr

-- A record for the logger, or the panic for an unknown level.
pub data Logged (Attr : Type 0) : Type 0 where
  log_attrs : Level → String → List Attr → Logged Attr
  unknown_level : Logged Attr

module _ (p : LoggingPackage) where
  unfoldable pub attrs_of : List (String × p.Any) → List p.Attr
  attrs_of [] = []
  attrs_of ((field_name, field_value) ∷ pairs) = p.slog_any field_name field_value ∷ attrs_of pairs

  unfoldable pub interceptor_logger : p.LoggingLevel → String → List p.Any → Logged p.Attr
  unfolding attrs_of
  interceptor_logger lvl msg fields =
      let attrs = attrs_of (p.iterate fields) in
      if p.same_level lvl p.debug
      then log_attrs level_debug msg attrs
      else if p.same_level lvl p.info
      then log_attrs level_info msg attrs
      else if p.same_level lvl p.warn
      then log_attrs level_warn msg attrs
      else if p.same_level lvl p.error
      then log_attrs level_error msg attrs
      else unknown_level
