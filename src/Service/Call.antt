-- ===== src/Service/Call.antt =====
-- How a call of `MakeMatches` or of `BackfillMatches` stands once its client has sent something.
use matchmaking_function_grp.Prelude.{Option, none, some, ◌≡◌, refl, ap, sym, ◌∙◌}
use matchmaking_function_grp.Outcome.{Result, ok, err, panic, ◌>>=◌}
use matchmaking_function_grp.Rules.{GameRules, RuleSet, no_rules, game_rules, other_type}
use matchmaking_function_grp.Service.Unary.{dereference}
use matchmaking_function_grp.Pipeline.{Handler}

-- It waits for the first message, it has returned, its goroutines run with these rules, or it
-- waits for a results channel that is nil.
pub data Call (Request In Out Response State : Type 0) : Type 0 where
  waiting : Call Request In Out Response State
  returned : Result (Unit {0}) → Call Request In Out Response State
  running_with :
      GameRules → Handler Request In Out Response State → Call Request In Out Response State
  nil_results : Call Request In Out Response State

module _ {Request In Out Response State : Type 0} where
  -- `MakeMatches` and `BackfillMatches` of `MatchMaker` take rules of one type only.
  unfoldable pub run_rules :
      RuleSet
      → (GameRules → Handler Request In Out Response State)
      → Call Request In Out Response State
  run_rules no_rules begin = nil_results
  run_rules other_type begin = nil_results
  run_rules (game_rules rule) begin = running_with rule (begin rule)

  unfoldable pub run_with :
      Result RuleSet
      → (GameRules → Handler Request In Out Response State)
      → Call Request In Out Response State
  unfolding run_rules
  run_with (err e) begin = returned (err e)
  run_with (panic p) begin = returned (panic p)
  run_with (ok rules) begin = run_rules rules begin

  same_rule :
      {a b : GameRules} {s t : Handler Request In Out Response State}
      → ◌≡◌ {A = Call Request In Out Response State} (running_with a s) (running_with b t)
      → a ≡ b
  same_rule h = cc

  same_handler :
      {a b : GameRules} {s t : Handler Request In Out Response State}
      → ◌≡◌ {A = Call Request In Out Response State} (running_with a s) (running_with b t)
      → s ≡ t
  same_handler h = cc

  pub run_with-runs :
      (r : Result RuleSet) (begin : GameRules → Handler Request In Out Response State)
      (rule : GameRules) (s : Handler Request In Out Response State)
      → run_with r begin ≡ running_with rule s
      → (r ≡ ok (game_rules rule)) × (s ≡ begin rule)
  unfolding run_with run_rules
  run_with-runs (err e) begin rule s h = cc
  run_with-runs (panic p) begin rule s h = cc
  run_with-runs (ok no_rules) begin rule s h = cc
  run_with-runs (ok other_type) begin rule s h = cc
  run_with-runs (ok (game_rules rule')) begin rule s h =
      let same = same_rule h in
      (ap (λ x. ok (game_rules x)) same, sym (same_handler h) ∙ ap begin same)

pub dereference-ok :
    {A B : Type 0} (o : Option A) (next : A → Result B) {b : B}
    → dereference o >>= next ≡ ok b
    → (a : A) × (o ≡ some a) × (next a ≡ ok b)
dereference-ok none next h = cc
dereference-ok (some a) next h = (a, refl, h)
