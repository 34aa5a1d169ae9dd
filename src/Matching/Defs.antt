-- ===== src/Matching/Defs.antt =====
-- `buildMatch` and the goroutine of `MakeMatches`. A run lists the matches that were sent on the
-- results channel; log lines are left out.
use matchmaking_function_grp.Prelude.{
  ℕ, zero, suc, ℤ, pos, negsuc, ltb_ℤ, is_zero, mul_int, String, Bool, not, ◌&&◌, Option, none,
  some, List, [], ◌∷◌, ◌++◌, length, drop, replicate, copy, if◌then◌else◌, remove_hyphens,
}
use matchmaking_function_grp.Value.{strings, object, end, field}
use matchmaking_function_grp.External.{Pie}
use matchmaking_function_grp.Outcome.{
  Run, return, fail, out_of_fuel, send, and_then, index_out_of_range, make_len_out_of_range,
}
use matchmaking_function_grp.PlayerData.{PlayerData, to_id}
use matchmaking_function_grp.DataObjects.{Ticket, zero_ticket, Match, no_server_pool}
use matchmaking_function_grp.Rules.{GameRules, RuleSet, no_rules, game_rules, other_type}

-- `minPlayers` and `maxPlayers` of `buildMatch`.
unfoldable pub player_bounds : GameRules → ℤ × ℤ
player_bounds rule =
    let alliance = rule.alliance_rule in
    let min_product = mul_int alliance.min_number alliance.player_min_number in
    let max_product = mul_int alliance.max_number alliance.player_max_number in
    let unset = is_zero min_product && is_zero max_product in
    let min_players = if unset then pos 2 else min_product in
    let max_players = if unset then pos 2 else max_product in
    (
      if is_zero rule.ship_count_min
          then mul_int min_players (pos 1)
          else mul_int min_players rule.ship_count_min,
      if is_zero rule.ship_count_max
          then mul_int max_players (pos 1)
          else mul_int max_players rule.ship_count_max,
    )

-- The players of the first `n` tickets; `none` if the loop reads past the end of the slice.
unfoldable pub players_of : ℕ → List Ticket → Option (List PlayerData)
players_of zero queue = some []
players_of (suc n) [] = none
players_of (suc n) (ticket ∷ queue) = elim (players_of n queue) [
  | none ↦ none
  | some players ↦ some (ticket.players ++ players)
]

-- The `n`-th call of `uuid.NewRandom` gives `uuid n`.
unfoldable pub generate_uuid : (ℕ → String) → ℕ → String
generate_uuid uuid n = remove_hyphens (uuid n)

module _ (pie : Pie) (uuid : ℕ → String) where
  -- The match of the first `n` tickets; `count` calls of `GenerateUUID` were made before.
  unfoldable pub new_match : ℕ → Bool → ℕ → List Ticket → List PlayerData → Match
  unfolding generate_uuid
  new_match count backfill n queue players =
      let team_id = generate_uuid uuid count in
      record {
        tickets = copy (replicate n zero_ticket) queue;
        teams =
            record { user_ids = pie.pie_map to_id players; parties = []; team_id = team_id } ∷ [];
        region_preference = "us-east-2" ∷ "us-west-2" ∷ [];
        match_attributes =
            some
              (field "assignment" (object (field "small-team-1" (strings (team_id ∷ [])) end)) end);
        backfill = backfill;
        server_name = "";
        client_version = "";
        server_pool_selection_parameter = no_server_pool;
      }

  -- The body of the loop once there are enough tickets. `next` is the rest of the loop.
  unfoldable pub one_match :
      ℕ → Bool → ℤ → List Ticket → (ℕ → Run Match (List Ticket × ℕ)) → Run Match (List Ticket × ℕ)
  unfolding players_of new_match
  one_match count backfill (negsuc n) queue next = fail make_len_out_of_range
  one_match count backfill (pos n) queue next = elim (players_of n queue) [
    | none ↦ fail index_out_of_range
    | some players ↦ send (new_match count backfill n queue players) (next n)
  ]

  module _ (auto_backfill : Bool) (min_players max_players : ℤ) where
    abbrev pub num_players : List Ticket → ℤ
    num_players queue =
        if not (ltb_ℤ (pos (length queue)) max_players) then max_players else min_players

    -- The `for` loop of `buildMatch`, on fuel.
    unfoldable pub build_loop : ℕ → ℕ → List Ticket → Run Match (List Ticket × ℕ)
    unfolding one_match
    build_loop zero count queue = out_of_fuel
    build_loop (suc fuel) count queue =
        let n = num_players queue in
        let backfill = auto_backfill && ltb_ℤ n max_players in
        let rest =
          one_match count backfill n queue (λ k. build_loop fuel (suc count) (drop k queue)) in
        if ltb_ℤ (pos (length queue)) min_players then return (queue, count) else rest

  -- Each round removes a ticket, unless the bounds are not positive: `length` and one is enough.
  unfoldable pub build_match : GameRules → ℕ → Ticket → List Ticket → Run Match (List Ticket × ℕ)
  build_match rule count ticket unmatched =
      let queue = unmatched ++ ticket ∷ [] in
      let (min_players, max_players) = player_bounds rule in
      build_loop rule.auto_backfill min_players max_players (suc (length queue)) count queue

-- What the `select` of the goroutine may see next.
pub data Event : Type 0 where
  ticket_received : Ticket → Event
  tickets_closed : Event
  ctx_done : Event

-- The goroutine waits in `select`, or it has returned and closed the results channel. Both carry
-- the unmatched tickets.
pub data Phase : Type 0 where
  waiting : List Ticket → ℕ → Phase
  closed : List Ticket → ℕ → Phase

module _ (pie : Pie) (uuid : ℕ → String) where
  unfoldable pub match_loop : GameRules → ℕ → List Ticket → List Event → Run Match Phase
  match_loop rule count unmatched [] = return (waiting unmatched count)
  match_loop rule count unmatched (tickets_closed ∷ events) = return (closed unmatched count)
  match_loop rule count unmatched (ctx_done ∷ events) = return (closed unmatched count)
  match_loop rule count unmatched (ticket_received ticket ∷ events) =
      and_then (build_match pie uuid rule count ticket unmatched)
        (λ (queue, count'). match_loop rule count' queue events)

  -- `none` is the nil channel.
  unfoldable pub make_matches : ℕ → RuleSet → List Event → Option (Run Match Phase)
  make_matches count (game_rules rule) events = some (match_loop rule count [] events)
  make_matches count no_rules events = none
  make_matches count other_type events = none
