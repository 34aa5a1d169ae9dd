-- ===== src/Matching/Groups.antt =====
-- What a match is made of, and one round of the loop of `buildMatch` in those terms.
use matchmaking_function_grp.Prelude.{
  ℕ, zero, suc, pos, ◌≤◌, ◌<◌, ◌≡◌, refl, ap, ◌∙◌, String, Bool, ◌&&◌, some, List, [], ◌∷◌, ◌++◌,
  map, length, take, drop, length-take, copy-replicate, ltb, lt→ltb, if◌then◌else◌, arith,
}
use matchmaking_function_grp.External.{Pie}
use matchmaking_function_grp.Outcome.{return, send}
use matchmaking_function_grp.PlayerData.{PlayerData, to_id}
use matchmaking_function_grp.DataObjects.{Ticket, zero_ticket, Match}
use matchmaking_function_grp.Matching.Defs.{
  generate_uuid, players_of, new_match, one_match, build_loop,
}

abbrev pub all_players : List Ticket → List PlayerData
all_players [] = []
all_players (ticket ∷ tickets) = ticket.players ++ all_players tickets

-- The tickets of some matches, in the order in which they were sent.
abbrev pub matched : List Match → List Ticket
matched [] = []
matched (found ∷ matches) = found.tickets ++ matched matches

-- A match of `min` to `max` tickets with one team, of exactly the players of these tickets.
pub record IsMatch (auto_backfill : Bool) (min max : ℕ) (found : Match) : Type 0 where
  pub enough : min ≤ length found.tickets
  pub limited : length found.tickets ≤ max
  pub team_id : String
  pub only_team :
      found.teams
      ≡ record { user_ids = map to_id (all_players found.tickets); parties = []; team_id = team_id }
        ∷ []
  pub wants_more : found.backfill ≡ (auto_backfill && ltb (length found.tickets) max)

pub players_of-take :
    (n : ℕ) (queue : List Ticket)
    → n ≤ length queue
    → players_of n queue ≡ some (all_players (take n queue))
unfolding players_of
players_of-take zero queue h = refl
players_of-take (suc n) [] h = elim h [ ]
players_of-take (suc n) (ticket ∷ queue) h = rw (players_of-take n queue (omega arith))

module _ (pie : Pie) (uuid : ℕ → String) (auto_backfill : Bool) (min max : ℕ) where
  pub group_match : ℕ → ℕ → List Ticket → Match
  group_match count n queue =
      new_match pie uuid count (auto_backfill && ltb n max) n queue (all_players (take n queue))

  pub tickets-group_match :
      (count n : ℕ) (queue : List Ticket)
      → n ≤ length queue
      → (group_match count n queue).tickets ≡ take n queue
  unfolding group_match new_match
  tickets-group_match count n queue h = copy-replicate n _ queue h

  teams-group_match :
      (count n : ℕ) (queue : List Ticket)
      → n ≤ length queue
      → (group_match count n queue).teams
        ≡ record {
          user_ids = map to_id (all_players (group_match count n queue).tickets);
          parties = [];
          team_id = generate_uuid uuid count;
        }
          ∷ []
  unfolding group_match new_match
  teams-group_match count n queue h = rw (copy-replicate n zero_ticket queue h, pie.pie_map_lem)

  backfill-group_match :
      (count n : ℕ) (queue : List Ticket)
      → (group_match count n queue).backfill ≡ (auto_backfill && ltb n max)
  unfolding group_match new_match
  backfill-group_match count n queue = refl

  pub group_match-IsMatch :
      (count n : ℕ) (queue : List Ticket)
      → n ≤ length queue
      → min ≤ n
      → n ≤ max
      → IsMatch auto_backfill min max (group_match count n queue)
  group_match-IsMatch count n queue h low high =
      let size : length (group_match count n queue).tickets ≡ n =
        ap length (tickets-group_match count n queue h) ∙ length-take n queue h in
      record {
        enough = omega arith;
        limited = omega arith;
        team_id = generate_uuid uuid count;
        only_team = teams-group_match count n queue h;
        wants_more = rw size (backfill-group_match count n queue);
      }

  pub build_loop_stop :
      (fuel count : ℕ) (queue : List Ticket)
      → length queue < min
      → build_loop pie uuid auto_backfill (pos min) (pos max) (suc fuel) count queue
        ≡ return (queue, count)
  unfolding build_loop
  build_loop_stop fuel count queue h = rw (lt→ltb _ _ h)

  pub build_loop_round :
      (fuel count n : ℕ) (queue : List Ticket)
      → min ≤ length queue
      → n ≡ (if ltb (length queue) max then min else max)
      → build_loop pie uuid auto_backfill (pos min) (pos max) (suc fuel) count queue
        ≡ send
            (group_match count n queue)
            (build_loop pie uuid auto_backfill (pos min) (pos max) fuel (suc count) (drop n queue))
  unfolding build_loop group_match one_match
  build_loop_round fuel count n queue h e = ground (arith, players_of-take n queue)
