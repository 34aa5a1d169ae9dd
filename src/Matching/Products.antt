-- ===== src/Matching/Products.antt =====
-- `minPlayers` and `maxPlayers` of `buildMatch` for all rules whose products do not overflow,
-- negative numbers included.
use matchmaking_function_grp.Prelude.{
  ℤ, pos, ◌*ℤ◌, ◌≡◌, refl, Bool, true, false, ◌&&◌, is_zero, mul_int, IsInt, mul_int-IsInt,
  if◌then◌else◌,
}
use matchmaking_function_grp.Rules.{GameRules}
use matchmaking_function_grp.Matching.Defs.{player_bounds}

abbrev pub least_team : GameRules → ℤ
least_team rule = rule.alliance_rule.min_number *ℤ rule.alliance_rule.player_min_number

abbrev pub largest_team : GameRules → ℤ
largest_team rule = rule.alliance_rule.max_number *ℤ rule.alliance_rule.player_max_number

-- A product, or 2 where both are 0, times the ships, 0 standing for 1.
abbrev pub scaled_bound : GameRules → ℤ → ℤ → ℤ
scaled_bound rule product ships =
    (if is_zero (least_team rule) && is_zero (largest_team rule) then pos 2 else product)
    *ℤ (if is_zero ships then pos 1 else ships)

-- No product leaves the range of `int`.
pub record NoOverflow (rule : GameRules) : Type 0 where
  pub least_fits : IsInt (least_team rule)
  pub largest_fits : IsInt (largest_team rule)
  pub min_fits : IsInt (scaled_bound rule (least_team rule) rule.ship_count_min)
  pub max_fits : IsInt (scaled_bound rule (largest_team rule) rule.ship_count_max)

one_or :
    (v ships : ℤ)
    → IsInt (v *ℤ (if is_zero ships then pos 1 else ships))
    → (if is_zero ships then mul_int v (pos 1) else mul_int v ships)
      ≡ v *ℤ (if is_zero ships then pos 1 else ships)
one_or v ships h = move (is_zero ships) h
  where
    move :
        (b : Bool)
        → IsInt (v *ℤ (if b then pos 1 else ships))
        → (if b then mul_int v (pos 1) else mul_int v ships) ≡ v *ℤ (if b then pos 1 else ships)
    move true h = mul_int-IsInt v (pos 1) h
    move false h = mul_int-IsInt v ships h

-- For any rules, negative numbers included, whose products fit into an `int`: `buildMatch`
-- computes as its minimum and maximum the numbers of teams times the sizes of teams, or 2 where
-- both products are 0, times the ship counts, where a count of 0 stands for 1.
pub player_bounds-NoOverflow :
    (rule : GameRules)
    → NoOverflow rule
    → player_bounds rule ≡ (
      scaled_bound rule (least_team rule) rule.ship_count_min,
      scaled_bound rule (largest_team rule) rule.ship_count_max,
    )
unfolding player_bounds
player_bounds-NoOverflow rule f =
    rw
      (
        mul_int-IsInt rule.alliance_rule.min_number rule.alliance_rule.player_min_number
            f.least_fits,
        mul_int-IsInt rule.alliance_rule.max_number rule.alliance_rule.player_max_number
            f.largest_fits,
        one_or _ rule.ship_count_min f.min_fits,
        one_or _ rule.ship_count_max f.max_fits,
      )
      refl
