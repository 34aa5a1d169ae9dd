-- ===== src/Matching/Stream.antt =====
-- What `MakeMatches` sends for a stream of tickets.
use matchmaking_function_grp.Prelude.{
  some, ℕ, ◌+◌, ◌≤◌, ◌<◌, ◌≡◌, refl, ap, ◌∙◌, sym, String, Bool, List, [], ◌∷◌, ◌++◌, length, All,
  All-append, arith, length-append,
}
use mathlib.Core.List.{append_assoc, append-nil}
use matchmaking_function_grp.External.{Pie}
use matchmaking_function_grp.Outcome.{Run, returns, return, and_then, and_then-returns}
use matchmaking_function_grp.DataObjects.{Ticket, Match}
use matchmaking_function_grp.Rules.{GameRules, game_rules}
use matchmaking_function_grp.Matching.Defs.{
  Event, ticket_received, tickets_closed, ctx_done, Phase, waiting, closed, build_match, match_loop,
  make_matches,
}
use matchmaking_function_grp.Matching.Groups.{matched, IsMatch}
use matchmaking_function_grp.Matching.Limits.{
  HasBounds, Numbers, rules_of, Fits, IsOrdered, min_players, max_players, player_bounds-HasBounds,
  min_players-le,
}
use matchmaking_function_grp.Matching.Build.{Serves, build_match-Serves}

-- The tickets that arrive before the channel is closed or the context is done.
abbrev pub received : List Event → List Ticket
received [] = []
received (tickets_closed ∷ events) = []
received (ctx_done ∷ events) = []
received (ticket_received ticket ∷ events) = ticket ∷ received events

-- Where the goroutine stands then.
abbrev pub phase_after : List Event → List Ticket → ℕ → Phase
phase_after [] = waiting
phase_after (tickets_closed ∷ events) = closed
phase_after (ctx_done ∷ events) = closed
phase_after (ticket_received ticket ∷ events) = phase_after events

-- A match of exactly `min` tickets.
abbrev pub IsGroup : Bool → ℕ → ℕ → Match → Type 0
IsGroup auto_backfill min max found =
    IsMatch auto_backfill min max found × (length found.tickets ≡ min)

pub record Groups (rule : GameRules) (min max count : ℕ) (unmatched : List Ticket)
    (events : List Event) (run : Run Match Phase) : Type 0 where
  pub rest : List Ticket
  pub returned : run.ending ≡ returns (phase_after events rest (count + length run.sent))
  pub in_order : matched run.sent ++ rest ≡ unmatched ++ received events
  pub too_few : length rest < min
  pub groups : All (IsGroup rule.auto_backfill min max) run.sent

-- Matches that share at most `min` tickets, but have `min` each.
exact :
    (auto_backfill : Bool) (min max : ℕ) (matches : List Match)
    → length (matched matches) ≤ min
    → All (IsMatch auto_backfill min max) matches
    → All (IsGroup auto_backfill min max) matches
exact auto_backfill min max [] h g = tt
exact auto_backfill min max (found ∷ matches) h g =
    let total = length-append found.tickets (matched matches) in
    ((g.0, omega (arith, g.0.enough)), exact auto_backfill min max matches (omega arith) g.1)

matched-append : (xs ys : List Match) → matched (xs ++ ys) ≡ matched xs ++ matched ys
matched-append [] ys = refl
matched-append (x ∷ xs) ys = rw (matched-append xs ys, append_assoc)

small :
    (matches : List Match) (rest unmatched : List Ticket) (ticket : Ticket) {min : ℕ}
    → length unmatched < min
    → matched matches ++ rest ≡ unmatched ++ ticket ∷ []
    → length (matched matches) ≤ min
small matches rest unmatched ticket few e = omega (
  arith,
  ap length e,
  length-append (matched matches) rest,
  length-append unmatched (ticket ∷ []),
)

module _ (pie : Pie) (uuid : ℕ → String) (rule : GameRules) (min max : ℕ)
    (bounds : HasBounds rule min max) (positive : 0 < min) (ordered : min ≤ max) where
  and_then-Groups :
      (count : ℕ) (unmatched : List Ticket) (ticket : Ticket) (events : List Event)
      (run : Run Match (List Ticket × ℕ))
      → length unmatched < min
      → (s : Serves rule.auto_backfill min max count (unmatched ++ ticket ∷ []) run)
      → Groups rule min max
          (count + length run.sent)
          s.rest
          events
          (match_loop pie uuid rule (count + length run.sent) s.rest events)
      → Groups rule min max count unmatched
          (ticket_received ticket ∷ events)
          (and_then run (λ (queue, count'). match_loop pie uuid rule count' queue events))
  and_then-Groups count unmatched ticket events run few s g =
      rw
        (and_then-returns run (λ (queue, count'). match_loop pie uuid rule count' queue events)
          (s.rest, count + length run.sent) s.returned)
        (record {
          rest = g.rest;
          returned =
              g.returned
              ∙ ap (λ k. returns (phase_after events g.rest k))
                  (omega (
                    arith,
                    length-append run.sent
                        (match_loop pie uuid rule (count + length run.sent) s.rest events).sent,
                  ));
          in_order =
              rw (matched-append, append_assoc, g.in_order, ← append_assoc, s.in_order)
                (append_assoc unmatched (ticket ∷ []) (received events));
          too_few = g.too_few;
          groups =
              All-append _ run.sent _
                (exact rule.auto_backfill min max run.sent
                  (small run.sent s.rest unmatched ticket few s.in_order) s.well_formed)
                g.groups;
        })

  still :
      (events : List Event) (count : ℕ) (unmatched : List Ticket)
      → length unmatched < min
      → received events ≡ []
      → match_loop pie uuid rule count unmatched events
        ≡ return (phase_after events unmatched count)
      → Groups rule min max count unmatched events (match_loop pie uuid rule count unmatched events)
  still events count unmatched h none e = rw e (record {
    rest = unmatched;
    returned = ap (λ k. returns (phase_after events unmatched k)) (omega arith);
    in_order = rw none (sym (append-nil unmatched));
    too_few = h;
    groups = tt;
  })

  -- Every match has exactly `min` tickets, and the matches and the rest make up the tickets that
  -- arrived, in their order.
  pub match_loop-Groups :
      (events : List Event) (count : ℕ) (unmatched : List Ticket)
      → length unmatched < min
      → Groups rule min max count unmatched events (match_loop pie uuid rule count unmatched events)
  unfolding match_loop
  match_loop-Groups [] count unmatched h = still _ count unmatched h refl refl
  match_loop-Groups (tickets_closed ∷ events) count unmatched h =
      still _ count unmatched h refl refl
  match_loop-Groups (ctx_done ∷ events) count unmatched h = still _ count unmatched h refl refl
  match_loop-Groups (ticket_received ticket ∷ events) count unmatched h =
      let run = build_match pie uuid rule count ticket unmatched in
      let s =
        build_match-Serves pie uuid rule min max count ticket unmatched bounds positive ordered in
      and_then-Groups count unmatched ticket events run h s
        (match_loop-Groups events (count + length run.sent) s.rest s.too_few)

-- For rules in which no number is negative and no minimum is above its maximum, whose products
-- fit into an `int` and whose minimum of players is positive: the goroutine of `MakeMatches`
-- returns or waits, as the events say, it never panics or spins; the tickets of the matches
-- that it has sent, followed by the queue, are the tickets that it has received, in their
-- order, whatever their players; fewer tickets than the minimum are left; and each match has
-- exactly the minimum of tickets and one team, of exactly their players, and wants backfill
-- just if the rules say so and it has fewer tickets than the maximum.
pub make_matches-Groups :
    (pie : Pie) (uuid : ℕ → String) (n : Numbers) (auto_backfill : Bool) (count : ℕ)
    (events : List Event)
    → Fits n
    → IsOrdered n
    → 0 < min_players n
    → (run : Run Match Phase) × (make_matches pie uuid count
          (game_rules (rules_of n auto_backfill))
          events
        ≡ some run)
      × Groups (rules_of n auto_backfill) (min_players n) (max_players n) count [] events run
unfolding make_matches
make_matches-Groups pie uuid n auto_backfill count events f o positive = (
  match_loop pie uuid (rules_of n auto_backfill) count [] events,
  refl,
  match_loop-Groups pie uuid (rules_of n auto_backfill) (min_players n) (max_players n)
      (player_bounds-HasBounds n auto_backfill f) positive (min_players-le n o) events count []
      positive,
)
