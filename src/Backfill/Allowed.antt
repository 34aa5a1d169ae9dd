-- ===== src/Backfill/Allowed.antt =====
-- No proposal of `buildBackfillMatch` adds a ticket to a session that the ticket excludes.
use matchmaking_function_grp.Prelude.{
  ℕ, ◌+◌, ◌≡◌, String, false, inl, inr, Bool-cases, ltb, ◌&&◌, Option, none, some, List, [], ◌∷◌,
  ◌++◌, length, All,
}
use matchmaking_function_grp.Value.{Attributes, Fields}
use matchmaking_function_grp.External.{Pie}
use matchmaking_function_grp.Outcome.{Run}
use matchmaking_function_grp.DataObjects.{Ticket, BackfillTicket, BackfillProposal}
use matchmaking_function_grp.Parties.{PartyMap}
use matchmaking_function_grp.Backfill.Defs.{
  Queues, contains, is_excluded, with_attributes, new_attributes, new_proposal, write_map, break_or,
  appended, range_loop, build_backfill_match,
}

abbrev pub IsAllowed : BackfillProposal → Type 0
IsAllowed p = All (λ t. contains t.excluded_sessions p.match_session_id ≡ false) p.added_tickets

module _ (pie : Pie) (order : PartyMap → PartyMap) (uuid : ℕ → String) where
  break_or-IsAllowed :
      (bs : List BackfillTicket) (ts : List Ticket) (count : ℕ) (run : Run BackfillProposal Queues)
      → All IsAllowed run.sent
      → All IsAllowed (break_or ts bs count run).sent
  unfolding break_or
  break_or-IsAllowed bs [] count run h = tt
  break_or-IsAllowed bs (t ∷ ts) count run h = h

  write_map-IsAllowed :
      (o : Attributes) (write : Fields → Run BackfillProposal Queues)
      → ((fields : Fields) → All IsAllowed (write fields).sent)
      → All IsAllowed (write_map o write).sent
  unfolding write_map
  write_map-IsAllowed none write h = tt
  write_map-IsAllowed (some fields) write h = h fields

  range_loop-IsAllowed :
      (bs : List BackfillTicket) (ts : List Ticket) (count : ℕ) (seen : List BackfillTicket)
      → All IsAllowed (range_loop pie order uuid count seen bs ts).sent
  unfolding range_loop is_excluded new_proposal
  range_loop-IsAllowed [] ts count seen = tt
  range_loop-IsAllowed (b ∷ bs) [] count seen = tt
  range_loop-IsAllowed (b ∷ bs) (t ∷ ts) count seen = elim (Bool-cases (is_excluded t b)) [
    | inl skipped ↦ rw skipped (range_loop-IsAllowed bs ts count (seen ++ b ∷ []))
    | inr free ↦ rw free (
        write_map-IsAllowed b.partial_match.match_attributes _ (λ fields. (
          (free, tt),
          break_or-IsAllowed bs ts (count + 3) _ (
              range_loop-IsAllowed bs ts (count + 3)
                (seen ++ with_attributes b (new_attributes pie order uuid count fields) ∷ [])),
        )))
  ]

  pub build_backfill_match-IsAllowed :
      (count : ℕ) (nt : Option Ticket) (nb : Option BackfillTicket) (ts : List Ticket)
      (bs : List BackfillTicket)
      → All IsAllowed (build_backfill_match pie order uuid count nt nb ts bs).sent
  unfolding build_backfill_match
  build_backfill_match-IsAllowed count nt nb ts bs =
      elim (Bool-cases (ltb 0 (length (appended bs nb)) && ltb 0 (length (appended ts nt)))) [
        | inl enough ↦ rw enough (range_loop-IsAllowed (appended bs nb) (appended ts nt) count [])
        | inr few ↦ rw few tt
      ]
