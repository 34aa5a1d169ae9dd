-- ===== src/Backfill/Rounds.antt =====
-- The rounds of the loop of `buildBackfillMatch`.
use matchmaking_function_grp.Prelude.{ℕ, ◌+◌, String, ◌≡◌, true, false, some, List, [], ◌∷◌, ◌++◌}
use matchmaking_function_grp.Value.{Attributes, Fields}
use matchmaking_function_grp.External.{Pie}
use matchmaking_function_grp.Outcome.{Run, return, send}
use matchmaking_function_grp.DataObjects.{Ticket, BackfillTicket, BackfillProposal}
use matchmaking_function_grp.Parties.{PartyMap}
use matchmaking_function_grp.Backfill.Defs.{
  Queues, is_excluded, with_attributes, new_attributes, new_proposal, range_loop, write_map,
}

-- The attribute map of a backfill ticket is not nil.
abbrev pub HasMap : BackfillTicket → Type 0
HasMap b = (fields : Fields) × (b.partial_match.match_attributes ≡ some fields)

write_map-some :
    (o : Attributes) (fields : Fields) (write : Fields → Run BackfillProposal Queues)
    → o ≡ some fields
    → write_map o write ≡ write fields
unfolding write_map
write_map-some o fields write h = rw h

module _ (pie : Pie) (order : PartyMap → PartyMap) (uuid : ℕ → String) (count : ℕ)
    (seen : List BackfillTicket) (b : BackfillTicket) (bs : List BackfillTicket) (t : Ticket)
    (ts : List Ticket) where
  -- The backfill ticket as the queue keeps it, and the proposal.
  abbrev pub kept : Fields → BackfillTicket
  kept fields = with_attributes b (new_attributes pie order uuid count fields)

  abbrev pub proposed : Fields → BackfillProposal
  proposed fields =
      new_proposal pie order uuid count b (new_attributes pie order uuid count fields) t

  pub range_loop_skip :
      is_excluded t b ≡ true
      → range_loop pie order uuid count seen (b ∷ bs) (t ∷ ts)
        ≡ range_loop pie order uuid count (seen ++ b ∷ []) bs ts
  unfolding range_loop
  range_loop_skip h = rw h

  pub range_loop_last :
      (fields : Fields)
      → is_excluded t b ≡ false
      → b.partial_match.match_attributes ≡ some fields
      → ts ≡ []
      → range_loop pie order uuid count seen (b ∷ bs) (t ∷ ts)
        ≡ send (proposed fields) (return ([], bs, count + 3))
  unfolding range_loop
  range_loop_last fields h present none = rw (h, none) (write_map-some _ fields _ present)

  pub range_loop_propose :
      (fields : Fields) (next : Ticket) (more : List Ticket)
      → is_excluded t b ≡ false
      → b.partial_match.match_attributes ≡ some fields
      → ts ≡ next ∷ more
      → range_loop pie order uuid count seen (b ∷ bs) (t ∷ ts)
        ≡ send
            (proposed fields)
            (range_loop pie order uuid (count + 3) (seen ++ kept fields ∷ []) bs ts)
  unfolding range_loop
  range_loop_propose fields next more h present e = rw (h, e) (write_map-some _ fields _ present)
