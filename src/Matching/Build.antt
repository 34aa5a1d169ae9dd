-- ===== src/Matching/Build.antt =====
-- What one call of `buildMatch` does, for positive bounds.
use matchmaking_function_grp.Prelude.{
  ℕ, zero, suc, pos, ◌+◌, ◌≤◌, ◌<◌, ◌≡◌, refl, ap, ◌∙◌, String, Bool, List, [], ◌∷◌, ◌++◌, length,
  drop, length-drop, take-append-drop, All, ltb, if◌then◌else◌, arith, inl, inr, Bool-cases, ltb→lt,
  ltb→le,
}
use mathlib.Core.List.{append_assoc}
use matchmaking_function_grp.External.{Pie}
use matchmaking_function_grp.Outcome.{Run, returns, send}
use matchmaking_function_grp.DataObjects.{Ticket, Match}
use matchmaking_function_grp.Matching.Defs.{build_loop, build_match}
use matchmaking_function_grp.Matching.Limits.{HasBounds}
use matchmaking_function_grp.Rules.{GameRules}
use matchmaking_function_grp.Matching.Groups.{
  matched, IsMatch, group_match, tickets-group_match, group_match-IsMatch, build_loop_stop,
  build_loop_round,
}

-- The loop returned, the sent matches and the rest make up the queue in its order, each match is
-- well formed, fewer than `min` tickets are left, and one UUID was used for each match.
pub record Serves (auto_backfill : Bool) (min max count : ℕ) (queue : List Ticket)
    (run : Run Match (List Ticket × ℕ)) : Type 0 where
  pub rest : List Ticket
  pub returned : run.ending ≡ returns (rest, count + length run.sent)
  pub in_order : matched run.sent ++ rest ≡ queue
  pub too_few : length rest < min
  pub well_formed : All (IsMatch auto_backfill min max) run.sent

abbrev group_size : ℕ → ℕ → ℕ → ℕ
group_size min max waiting = if ltb waiting max then min else max

group_size_bounds :
    (min max waiting : ℕ)
    → min ≤ max
    → min ≤ waiting
    → (min ≤ group_size min max waiting)
      × (group_size min max waiting ≤ max)
      × (group_size min max waiting ≤ waiting)
group_size_bounds min max waiting h k = ground arith

fewer :
    (n : ℕ) (queue : List Ticket) (fuel : ℕ) {min max : ℕ}
    → 0 < min
    → (min ≤ n) × (n ≤ max) × (n ≤ length queue)
    → length queue < suc fuel
    → length (drop n queue) < fuel
fewer n queue fuel p b h = omega (arith, length-drop n queue)

module _ (pie : Pie) (uuid : ℕ → String) (auto_backfill : Bool) (min max : ℕ) where
  group_match-Serves :
      (count n : ℕ) (queue : List Ticket) (run : Run Match (List Ticket × ℕ))
      → (min ≤ n) × (n ≤ max) × (n ≤ length queue)
      → Serves auto_backfill min max (suc count) (drop n queue) run
      → Serves auto_backfill min max count queue
          (send (group_match pie uuid auto_backfill min max count n queue) run)
  group_match-Serves count n queue run (low, high, fits) s = record {
    rest = s.rest;
    returned = s.returned ∙ ap (λ k. returns (s.rest, k)) (omega arith);
    in_order =
        rw (append_assoc, s.in_order)
          (rw (tickets-group_match pie uuid auto_backfill min max count n queue fits)
            (take-append-drop n queue));
    too_few = s.too_few;
    well_formed = (
      group_match-IsMatch pie uuid auto_backfill min max count n queue fits low high,
      s.well_formed,
    );
  }

  pub build_loop-Serves :
      (fuel count : ℕ) (queue : List Ticket)
      → 0 < min
      → min ≤ max
      → length queue < fuel
      → Serves auto_backfill min max count queue
          (build_loop pie uuid auto_backfill (pos min) (pos max) fuel count queue)
  build_loop-Serves zero count queue positive ordered h = elim h [ ]
  build_loop-Serves (suc fuel) count queue positive ordered h =
      elim (Bool-cases (ltb (length queue) min)) [
        | inl few ↦
            rw (build_loop_stop pie uuid auto_backfill min max fuel count queue (ltb→lt _ _ few))
              (record {
                rest = queue;
                returned = ap (λ k. returns (queue, k)) (omega arith);
                in_order = refl;
                too_few = ltb→lt _ _ few;
                well_formed = tt;
              })
        | inr many ↦
            let enough = ltb→le _ _ many in
            let n : ℕ = group_size min max (length queue) in
            let bounds = group_size_bounds min max (length queue) ordered enough in
            rw (build_loop_round pie uuid auto_backfill min max fuel count n queue enough refl) (
              group_match-Serves count n queue _ bounds (
                build_loop-Serves fuel (suc count) (drop n queue) positive ordered
                  (fewer n queue fuel positive bounds h)))
      ]

-- For bounds `0 < min ≤ max`: a call of `buildMatch` returns; the tickets of its matches,
-- followed by the queue that it returns, are the old queue and the new ticket, in order; fewer
-- than `min` are left; and each match has between `min` and `max` tickets, one team of exactly
-- their players, and wants backfill just if the rules say so and it has fewer tickets than
-- `max`.
pub build_match-Serves :
    (pie : Pie) (uuid : ℕ → String) (rule : GameRules) (min max count : ℕ) (ticket : Ticket)
    (unmatched : List Ticket)
    → HasBounds rule min max
    → 0 < min
    → min ≤ max
    → Serves rule.auto_backfill min max count
        (unmatched ++ ticket ∷ [])
        (build_match pie uuid rule count ticket unmatched)
unfolding build_match
build_match-Serves pie uuid rule min max count ticket unmatched b positive ordered =
    rw (b.lower, b.upper)
      (build_loop-Serves pie uuid rule.auto_backfill min max _ count (unmatched ++ ticket ∷ [])
        positive ordered (omega arith))
