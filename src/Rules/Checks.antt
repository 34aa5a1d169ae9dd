-- ===== src/Rules/Checks.antt =====
-- Which rules `RulesFromJSON` accepts.
use matchmaking_function_grp.Prelude.{
  ◌≤ℤ◌, ltb_ℤ→le, le→ltb_ℤ, String, ◌≡◌, ◌≢◌, ◌↔◌, ap, sym, ◌∙◌, if◌then◌else◌, arith, Bool, false,
}
use matchmaking_function_grp.Outcome.{Result, ok, err, panic, Panic, Error, ◌>>=◌, >>=-eq-ok}
use matchmaking_function_grp.Rules.Defs.{
  GameRules, RuleSet, game_rules, alliance_error, player_error, ship_error, check_rules,
  rules_from_json,
}

pub record IsChecked (rule : GameRules) : Type 0 where
  pub teams_ordered : rule.alliance_rule.min_number ≤ℤ rule.alliance_rule.max_number
  pub players_ordered : rule.alliance_rule.player_min_number ≤ℤ rule.alliance_rule.player_max_number
  pub ships_ordered : rule.ship_count_min ≤ℤ rule.ship_count_max

guarded :
    {A : Type 0} (a b c : Bool) (x y z : Error) (v : A)
    → a ≡ false
    → b ≡ false
    → c ≡ false
    → ◌≡◌ {A = Result A}
        (if a then err x else if b then err y else if c then err z else ok v)
        (ok v)
guarded a b c x y z v p q r = ground arith

guarded_inversion :
    {A : Type 0} (a b c : Bool) (x y z : Error) (v : A) {w : A}
    → ◌≡◌ {A = Result A}
        (if a then err x else if b then err y else if c then err z else ok v)
        (ok w)
    → (w ≡ v) × (a ≡ false) × (b ≡ false) × (c ≡ false)
guarded_inversion a b c x y z v h = ground arith

check_rules-ok : (rule : GameRules) → IsChecked rule → check_rules rule ≡ ok (game_rules rule)
unfolding check_rules
check_rules-ok rule c =
    let a = rule.alliance_rule in
    guarded _ _ _ alliance_error player_error ship_error _
      (le→ltb_ℤ a.min_number a.max_number c.teams_ordered)
      (le→ltb_ℤ a.player_min_number a.player_max_number c.players_ordered)
      (le→ltb_ℤ rule.ship_count_min rule.ship_count_max c.ships_ordered)

check_rules-IsChecked :
    (rule : GameRules) (result : RuleSet)
    → check_rules rule ≡ ok result
    → (result ≡ game_rules rule) × IsChecked rule
unfolding check_rules
check_rules-IsChecked rule result h =
    let a = rule.alliance_rule in
    let (same, teams, players, ships) =
      guarded_inversion _ _ _ alliance_error player_error ship_error _ h in
    (
      same,
      record {
        teams_ordered = ltb_ℤ→le a.min_number a.max_number teams;
        players_ordered = ltb_ℤ→le a.player_min_number a.player_max_number players;
        ships_ordered = ltb_ℤ→le rule.ship_count_min rule.ship_count_max ships;
      },
    )

-- `RulesFromJSON` returns rules with no error exactly if `json.Unmarshal` reads them from the
-- text and none of the three minimums in them is above its maximum; and they are what it read.
pub rules_from_json-ok :
    (unmarshal : String → Result GameRules) (text : String) (result : RuleSet)
    → (rules_from_json unmarshal text ≡ ok result) ↔ (
        (rule : GameRules) × (unmarshal text ≡ ok rule)
        × (result ≡ game_rules rule)
        × IsChecked rule)
unfolding rules_from_json
rules_from_json-ok unmarshal text result = (
  λ h.
      let (rule, read, checked) = >>=-eq-ok (unmarshal text) check_rules h in
      let (same, c) = check_rules-IsChecked rule result checked in (rule, read, same, c),
  λ (rule, read, same, c). rw read (check_rules-ok rule c ∙ ap ok (sym same)),
)

unguarded :
    {A : Type 0} (a b c : Bool) (x y z : Error) (v : A) (p : Panic)
    → ◌≢◌ {A = Result A}
        (if a then err x else if b then err y else if c then err z else ok v)
        (panic p)
unguarded a b c x y z v p h = ground arith

check_rules-panics : (rule : GameRules) (p : Panic) → check_rules rule ≢ panic p
unfolding check_rules
check_rules-panics rule p = unguarded _ _ _ alliance_error player_error ship_error _ p

bind-panics : (m : Result GameRules) (p : Panic) → (m >>= check_rules) ≡ panic p → m ≡ panic p
bind-panics (ok rule) p h = absurd (check_rules-panics rule p h)
bind-panics (err e) p h = cc
bind-panics (panic q) p h = cc

-- `RulesFromJSON` has no panic of its own.
pub rules_from_json-panics :
    (unmarshal : String → Result GameRules) (text : String) (p : Panic)
    → rules_from_json unmarshal text ≡ panic p
    → unmarshal text ≡ panic p
unfolding rules_from_json
rules_from_json-panics unmarshal text p h = bind-panics (unmarshal text) p h
