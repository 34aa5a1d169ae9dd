-- ===== src/Backfill/Defs.antt =====
-- `buildBackfillMatch` and the goroutine of `BackfillMatches`. A run lists the proposals with the
-- values that they have when they are sent; log lines are left out, and so are the rules, which
-- the code does not read. Attribute maps are shared: what is written into the map of a proposal
-- also changes the backfill ticket that stays in the queue.
use matchmaking_function_grp.Prelude.{
  ℕ, ◌+◌, String, Bool, false, ◌&&◌, ◌||◌, Option, none, some, List, [], ◌∷◌, ◌++◌, length, ltb,
  str_eq, if◌then◌else◌,
}
use matchmaking_function_grp.Value.{Attributes, text, Fields, assign}
use matchmaking_function_grp.External.{Pie, zero_time}
use matchmaking_function_grp.Outcome.{Run, return, fail, send, index_out_of_range, nil_map_write}
use matchmaking_function_grp.PlayerData.{to_id}
use matchmaking_function_grp.DataObjects.{Ticket, Team, BackfillTicket, BackfillProposal}
use matchmaking_function_grp.Parties.{PartyMap, player_data_to_parties}
use matchmaking_function_grp.Matching.{generate_uuid}

-- `slices.Contains`
unfoldable pub contains : List String → String → Bool
contains [] s = false
contains (x ∷ xs) s = str_eq x s || contains xs s

-- The player may not be sent back to this session. A nil slice contains nothing.
unfoldable pub is_excluded : Ticket → BackfillTicket → Bool
unfolding contains
is_excluded ticket backfill_ticket =
    contains ticket.excluded_sessions backfill_ticket.match_session_id

-- Match tickets, backfill tickets, and the number of UUIDs that were generated.
abbrev pub Queues : Type 0
Queues = List Ticket × List BackfillTicket × ℕ

-- The backfill ticket after its attribute map was written to.
unfoldable pub with_attributes : BackfillTicket → Fields → BackfillTicket
with_attributes backfill_ticket fields = record backfill_ticket {
  partial_match = record backfill_ticket.partial_match { match_attributes = some fields };
}

-- A write into a nil map panics.
unfoldable pub write_map :
    Attributes → (Fields → Run BackfillProposal Queues) → Run BackfillProposal Queues
write_map none write = fail nil_map_write
write_map (some fields) write = write fields

-- The test at the end of the loop's body: the last ticket is used up, or the loop goes on.
unfoldable pub break_or :
    List Ticket
    → List BackfillTicket
    → ℕ
    → Run BackfillProposal Queues
    → Run BackfillProposal Queues
break_or [] backfill_tickets count rest = return ([], backfill_tickets, count)
break_or (ticket ∷ tickets) backfill_tickets count rest = rest

-- `append(xs, *x)`, if the pointer is not nil
abbrev pub appended : {A : Type 0} → List A → Option A → List A
appended xs none = xs
appended xs (some x) = xs ++ x ∷ []

module _ (pie : Pie) (order : PartyMap → PartyMap) (uuid : ℕ → String) where
  unfoldable pub new_team : ℕ → Ticket → Team
  new_team count ticket = record {
    user_ids = pie.pie_map to_id ticket.players;
    parties = player_data_to_parties order ticket.players;
    team_id = generate_uuid uuid count;
  }

  -- `proposedAttributes["generatedID"] = GenerateUUID()`
  unfoldable pub new_attributes : ℕ → Fields → Fields
  new_attributes count fields = assign "generatedID" (text (generate_uuid uuid (count + 1))) fields

  unfoldable pub new_proposal : ℕ → BackfillTicket → Fields → Ticket → BackfillProposal
  unfolding new_team
  new_proposal count backfill_ticket fields ticket = record {
    backfill_ticket_id = backfill_ticket.ticket_id;
    created_at = zero_time;
    added_tickets = ticket ∷ [];
    proposed_teams = backfill_ticket.partial_match.teams ++ new_team count ticket ∷ [];
    proposal_id = generate_uuid uuid (count + 2);
    match_pool = backfill_ticket.match_pool;
    match_session_id = backfill_ticket.match_session_id;
    attributes = some fields;
  }

  -- The `range` loop over the backfill tickets. `seen` are those that it has passed.
  unfoldable pub range_loop :
      ℕ → List BackfillTicket → List BackfillTicket → List Ticket → Run BackfillProposal Queues
  unfolding break_or
  range_loop count seen [] tickets = return (tickets, seen, count)
  range_loop count seen (backfill_ticket ∷ backfill_tickets) [] = fail index_out_of_range
  range_loop count seen (backfill_ticket ∷ backfill_tickets) (ticket ∷ tickets) =
      let skip = range_loop count (seen ++ backfill_ticket ∷ []) backfill_tickets tickets in
      let propose = λ (fields : Fields).
        let fields' = new_attributes count fields in
        send (new_proposal count backfill_ticket fields' ticket) (
          break_or tickets backfill_tickets (count + 3) (
            range_loop (count + 3) (seen ++ with_attributes backfill_ticket fields' ∷ [])
              backfill_tickets tickets)) in
      if is_excluded ticket backfill_ticket
      then skip
      else write_map backfill_ticket.partial_match.match_attributes propose

  unfoldable pub build_backfill_match :
      ℕ
      → Option Ticket
      → Option BackfillTicket
      → List Ticket
      → List BackfillTicket
      → Run BackfillProposal Queues
  build_backfill_match count new_ticket new_backfill_ticket unmatched unmatched_backfill =
      let tickets = appended unmatched new_ticket in
      let backfill_tickets = appended unmatched_backfill new_backfill_ticket in
      let enough = ltb 0 (length backfill_tickets) && ltb 0 (length tickets) in
      if enough
      then range_loop count [] backfill_tickets tickets
      else return (tickets, backfill_tickets, count)
