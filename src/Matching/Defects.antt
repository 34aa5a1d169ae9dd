-- ===== src/Matching/Defects.antt =====
-- Rules that `RulesFromJSON` lets through and `buildMatch` cannot serve.
use matchmaking_function_grp.Prelude.{
  ℕ, zero, suc, pos, ◌<◌, ◌≡◌, refl, ap, String, Bool, List, [], length, All, arith,
}
use matchmaking_function_grp.External.{Pie}
use matchmaking_function_grp.Outcome.{Run, running}
use matchmaking_function_grp.DataObjects.{Ticket, Match}
use matchmaking_function_grp.Rules.{GameRules}
use matchmaking_function_grp.Matching.Defs.{player_bounds, build_loop}
use matchmaking_function_grp.Matching.Groups.{tickets-group_match, build_loop_round}
use matchmaking_function_grp.Matching.Limits.{HasBounds}

-- The loop is still running, with `fuel` matches sent, all of them empty.
pub record Spins (fuel : ℕ) (run : Run Match (List Ticket × ℕ)) : Type 0 where
  pub endless : run.ending ≡ running
  pub sent_many : length run.sent ≡ fuel
  pub empty : All (λ found. found.tickets ≡ []) run.sent

module _ (pie : Pie) (uuid : ℕ → String) (auto_backfill : Bool) (max : ℕ) (queue : List Ticket)
    (few : length queue < max) where
  build_loop-Spins :
      (fuel count : ℕ)
      → Spins fuel (build_loop pie uuid auto_backfill (pos 0) (pos max) fuel count queue)
  build_loop-Spins zero count =
      unfold build_loop in record { endless = refl; sent_many = refl; empty = tt }
  build_loop-Spins (suc fuel) count =
      let ih = build_loop-Spins fuel (suc count) in
      rw
        (build_loop_round pie uuid auto_backfill 0 max fuel count 0 queue (omega arith)
          (ground arith))
        (record {
          endless = ih.endless;
          sent_many = ap suc ih.sent_many;
          empty = (
            tickets-group_match pie uuid auto_backfill 0 max count 0 queue (omega arith),
            ih.empty,
          );
        })

-- With a minimum of 0 and more than the waiting tickets as the maximum, the loop of
-- `buildMatch` sends empty matches for ever: for every number of rounds it is still running and
-- has sent that many matches, all with no ticket.
pub zero_min-Spins :
    (pie : Pie) (uuid : ℕ → String) (rule : GameRules) (max count fuel : ℕ) (queue : List Ticket)
    → HasBounds rule 0 max
    → length queue < max
    → Spins fuel (
        build_loop pie uuid rule.auto_backfill
          (player_bounds rule).0
          (player_bounds rule).1
          fuel
          count
          queue)
zero_min-Spins pie uuid rule max count fuel queue b few =
    rw (b.lower, b.upper) (build_loop-Spins pie uuid rule.auto_backfill max queue few fuel count)
