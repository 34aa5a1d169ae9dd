-- ===== src/Matching/Limits.antt =====
-- `minPlayers` and `maxPlayers` for rules whose numbers are not negative and do not overflow.
use matchmaking_function_grp.Prelude.{
  ℕ, pos, ◌*◌, ◌^◌, ◌≤◌, ◌<◌, ◌≡◌, Bool, ◌&&◌, ◌==◌, mul_int, mul_int-pos, is_zero, if◌then◌else◌,
  arith,
}
use matchmaking_function_grp.Rules.{GameRules}
use matchmaking_function_grp.Matching.Defs.{player_bounds}

-- The bounds that the loop of `buildMatch` works with are the numbers `min` and `max`.
pub record HasBounds (rule : GameRules) (min max : ℕ) : Type 0 where
  pub lower : (player_bounds rule).0 ≡ pos min
  pub upper : (player_bounds rule).1 ≡ pos max

-- The numbers of the rules as naturals.
pub record Numbers : Type 0 where
  pub teams_min : ℕ
  pub teams_max : ℕ
  pub players_min : ℕ
  pub players_max : ℕ
  pub ships_min : ℕ
  pub ships_max : ℕ

abbrev pub rules_of : Numbers → Bool → GameRules
rules_of n auto_backfill = record {
  ship_count_min = pos n.ships_min;
  ship_count_max = pos n.ships_max;
  auto_backfill = auto_backfill;
  alliance_rule = record {
    min_number = pos n.teams_min;
    max_number = pos n.teams_max;
    player_min_number = pos n.players_min;
    player_max_number = pos n.players_max;
  };
}

-- `minPlayers` and `maxPlayers` without machine arithmetic.
abbrev pub is_unset : Numbers → Bool
is_unset n = (n.teams_min * n.players_min == 0) && (n.teams_max * n.players_max == 0)

abbrev pub factor : ℕ → ℕ
factor ships = if ships == 0 then 1 else ships

abbrev pub min_players : Numbers → ℕ
min_players n = (if is_unset n then 2 else n.teams_min * n.players_min) * factor n.ships_min

abbrev pub max_players : Numbers → ℕ
max_players n = (if is_unset n then 2 else n.teams_max * n.players_max) * factor n.ships_max

-- No product leaves the range of `int`.
pub record Fits (n : Numbers) : Type 0 where
  pub teams_fit : n.teams_min * n.players_min < 2 ^ 63
  pub all_teams_fit : n.teams_max * n.players_max < 2 ^ 63
  pub min_fits : min_players n < 2 ^ 63
  pub max_fits : max_players n < 2 ^ 63

-- The checks of `RulesFromJSON`.
pub record IsOrdered (n : Numbers) : Type 0 where
  pub teams_ordered : n.teams_min ≤ n.teams_max
  pub players_ordered : n.players_min ≤ n.players_max
  pub ships_ordered : n.ships_min ≤ n.ships_max

scaled :
    (v ships : ℕ)
    → v * factor ships < 2 ^ 63
    → (if is_zero (pos ships) then mul_int (pos v) (pos 1) else mul_int (pos v) (pos ships))
      ≡ pos (v * factor ships)
scaled v ships h = ground (arith, mul_int-pos v 1, mul_int-pos v ships)

chosen : (unset : Bool) (v : ℕ) → (if unset then pos 2 else pos v) ≡ pos (if unset then 2 else v)
chosen unset v = ground arith

-- If no number of the rules is negative and the products of the team numbers and sizes, and
-- these times the ship counts, fit into an `int`, then `buildMatch` computes the bounds without
-- an overflow: the products, or 2 where both are 0, times the ship counts, 0 standing for 1.
pub player_bounds-HasBounds :
    (n : Numbers) (auto_backfill : Bool)
    → Fits n
    → HasBounds (rules_of n auto_backfill) (min_players n) (max_players n)
unfolding player_bounds
player_bounds-HasBounds n auto_backfill f =
    let low = mul_int-pos n.teams_min n.players_min f.teams_fit in
    let high = mul_int-pos n.teams_max n.players_max f.all_teams_fit in
    record {
      lower = rw (low, high, chosen (is_unset n) _) (scaled _ n.ships_min f.min_fits);
      upper = rw (low, high, chosen (is_unset n) _) (scaled _ n.ships_max f.max_fits);
    }

mul-le : (a b c d : ℕ) → a ≤ b → c ≤ d → a * c ≤ b * d
mul-le a b c d h k = grind arith

-- The minimum of players is at most the maximum, for rules in which no number is negative and
-- no minimum is above its maximum.
pub min_players-le : (n : Numbers) → IsOrdered n → min_players n ≤ max_players n
min_players-le n o =
    mul-le _ _ (factor n.ships_min) (factor n.ships_max) (unscaled n o)
      (factor-le _ _ o.ships_ordered)
  where
    factor-le : (e f : ℕ) → e ≤ f → factor e ≤ factor f
    factor-le e f h = ground arith

    unscaled :
        (n : Numbers)
        → IsOrdered n
        → (if is_unset n then 2 else n.teams_min * n.players_min)
          ≤ (if is_unset n then 2 else n.teams_max * n.players_max)
    unscaled n o = ground (arith, mul-le _ _ _ _ o.teams_ordered o.players_ordered)
