-- ===== src/Rules/Defs.antt =====
-- The rules of a match pool and how they are read. `unmarshal` is `json.Unmarshal` into a zero
-- `GameRules` of encoding/json, with the text of its error.
use matchmaking_function_grp.Prelude.{ℤ, ltb_ℤ, String, Bool, if◌then◌else◌}
use matchmaking_function_grp.Outcome.{Result, ok, err, Error, ◌>>=◌, status, invalid_argument}

pub record AllianceRule : Type 0 where
  pub min_number : ℤ
  pub max_number : ℤ
  pub player_min_number : ℤ
  pub player_max_number : ℤ

pub record GameRules : Type 0 where
  pub ship_count_min : ℤ
  pub ship_count_max : ℤ
  pub auto_backfill : Bool
  pub alliance_rule : AllianceRule

-- What an `interface{}` that is passed as rules can hold: nil, a `GameRules`, or another type.
pub data RuleSet : Type 0 where
  no_rules : RuleSet
  game_rules : GameRules → RuleSet
  other_type : RuleSet

abbrev pub alliance_error : Error
alliance_error = status invalid_argument "alliance rule MaxNumber is less than MinNumber"

abbrev pub player_error : Error
player_error = status invalid_argument "alliance rule PlayerMaxNumber is less than PlayerMinNumber"

abbrev pub ship_error : Error
ship_error = status invalid_argument "ShipCountMax is less than ShipCountMin"

-- The checks of `RulesFromJSON` after the text was read.
unfoldable pub check_rules : GameRules → Result RuleSet
check_rules rule_set =
    let alliance = rule_set.alliance_rule in
    if ltb_ℤ alliance.max_number alliance.min_number
    then err alliance_error
    else if ltb_ℤ alliance.player_max_number alliance.player_min_number
    then err player_error
    else if ltb_ℤ rule_set.ship_count_max rule_set.ship_count_min
    then err ship_error
    else ok (game_rules rule_set)

unfoldable pub rules_from_json : (String → Result GameRules) → String → Result RuleSet
rules_from_json unmarshal json_rules = do rule_set ← unmarshal json_rules; check_rules rule_set
