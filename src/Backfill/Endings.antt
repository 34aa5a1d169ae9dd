-- ===== src/Backfill/Endings.antt =====
-- The four ways in which a call of `buildBackfillMatch` ends when both queues hold something.
use matchmaking_function_grp.Prelude.{
  ℕ, ◌+◌, String, ◌≡◌, refl, ap, ◌∙◌, true, false, Option, List, [], ◌∷◌, ◌++◌, All, length, ◌<◌,
  lt→ltb,
}
use mathlib.Core.List.{append-nil, map-append}
use matchmaking_function_grp.External.{Pie}
use matchmaking_function_grp.Outcome.{Run, return, fail, returns, panics, index_out_of_range}
use matchmaking_function_grp.DataObjects.{Ticket, BackfillTicket, BackfillProposal}
use matchmaking_function_grp.Parties.{PartyMap}
use matchmaking_function_grp.Backfill.Defs.{
  Queues, is_excluded, range_loop, appended, build_backfill_match,
}
use matchmaking_function_grp.Backfill.Rounds.{HasMap, range_loop_skip, range_loop_last}
use matchmaking_function_grp.Backfill.Walk.{
  without_attributes, Same, Walked, walk, length-append-cons, build_backfill_match_loop,
}

-- The call returned: `tickets` and, up to attributes, `backfill_tickets` are left.
pub record Leaves (tickets : List Ticket) (backfill_tickets : List BackfillTicket)
    (run : Run BackfillProposal Queues) : Type 0 where
  pub count' : ℕ
  pub kept : List BackfillTicket
  pub same : Same kept backfill_tickets
  pub returned : run.ending ≡ returns (tickets, kept, count')

range_loop_empty :
    (pie : Pie) (order : PartyMap → PartyMap) (uuid : ℕ → String) (count : ℕ)
    (seen : List BackfillTicket) (b : BackfillTicket) (bs : List BackfillTicket)
    → range_loop pie order uuid count seen (b ∷ bs) [] ≡ fail index_out_of_range
unfolding range_loop
range_loop_empty pie order uuid count seen b bs = refl

range_loop_done :
    (pie : Pie) (order : PartyMap → PartyMap) (uuid : ℕ → String) (count : ℕ)
    (seen : List BackfillTicket) (ts : List Ticket)
    → range_loop pie order uuid count seen [] ts ≡ return (ts, seen, count)
unfolding range_loop
range_loop_done pie order uuid count seen ts = refl

-- The queues of the call: the tickets `served` stand before `t` and as many backfill tickets
-- `passed` before what is left of the other queue.
module _ (pie : Pie) (order : PartyMap → PartyMap) (uuid : ℕ → String) (count : ℕ)
    (new_ticket : Option Ticket) (new_backfill_ticket : Option BackfillTicket)
    (unmatched : List Ticket) (unmatched_backfill : List BackfillTicket) (served : List Ticket)
    (t : Ticket) (ts : List Ticket) (passed : List BackfillTicket) (b : BackfillTicket)
    (bs : List BackfillTicket) (tickets : appended unmatched new_ticket ≡ served ++ t ∷ ts)
    (backfill_tickets : appended unmatched_backfill new_backfill_ticket ≡ passed ++ b ∷ bs)
    (level : length passed ≡ length served) (maps : All HasMap passed) where
  abbrev the_run : Run BackfillProposal Queues
  the_run =
      build_backfill_match pie order uuid count new_ticket new_backfill_ticket unmatched
        unmatched_backfill

  walked : Walked pie order uuid [] passed (b ∷ bs) (t ∷ ts) the_run
  walked =
      rw
        (build_backfill_match_loop pie order uuid count new_ticket new_backfill_ticket unmatched
          unmatched_backfill (served ++ t ∷ ts) (passed ++ b ∷ bs) tickets backfill_tickets
          (length-append-cons passed b bs) (length-append-cons served t ts))
        (walk pie order uuid passed served (b ∷ bs) t ts count [] level maps)

  -- If as many backfill tickets stand before `b` as tickets before `t`, and have attribute
  -- maps, `t` is the last ticket and excluded from the session of `b`, and a backfill ticket is
  -- behind `b`, then the call panics with an index out of range.
  pub build_backfill_match-panics :
      (next : BackfillTicket) (more : List BackfillTicket)
      → ts ≡ []
      → bs ≡ next ∷ more
      → is_excluded t b ≡ true
      → the_run.ending ≡ panics index_out_of_range
  build_backfill_match-panics next more e f skipped =
      let out_of_tickets : range_loop pie order uuid walked.count' walked.seen' (b ∷ bs) (t ∷ ts)
          ≡ fail index_out_of_range =
        rw (e, f)
          (range_loop_skip pie order uuid walked.count' walked.seen' b (next ∷ more) t [] skipped
            ∙ range_loop_empty pie order uuid walked.count' (walked.seen' ++ b ∷ []) next more) in
      walked.reaches ∙ ap (λ (r : Run BackfillProposal Queues). r.ending) out_of_tickets

  -- If as many backfill tickets stand before `b` as tickets before `t`, all of them and `b`
  -- have attribute maps, `t` is the last ticket and it is not excluded from the session of `b`,
  -- then the call returns no ticket and the backfill tickets behind `b`, these up to their
  -- attributes.
  pub build_backfill_match-last :
      ts ≡ [] → HasMap b → is_excluded t b ≡ false → Leaves [] bs the_run
  build_backfill_match-last e (fields, present) free = record {
    count' = walked.count' + 3;
    kept = bs;
    same = refl;
    returned =
        walked.reaches
        ∙ ap (λ (r : Run BackfillProposal Queues). r.ending)
            (range_loop_last pie order uuid walked.count' walked.seen' b bs t ts fields free present
              e);
  }

  -- If as many backfill tickets stand before `b` as tickets before `t`, and have attribute
  -- maps, both `t` and `b` are the last and `t` is excluded from the session of `b`, then the
  -- call returns no ticket, `t` included, and all of the backfill tickets, up to their
  -- attributes.
  pub build_backfill_match-excluded :
      ts ≡ [] → bs ≡ [] → is_excluded t b ≡ true → Leaves [] (passed ++ b ∷ []) the_run
  build_backfill_match-excluded e f skipped =
      let all_passed : range_loop pie order uuid walked.count' walked.seen' (b ∷ bs) (t ∷ ts)
          ≡ return ([], walked.seen' ++ b ∷ [], walked.count') =
        rw (e, f)
          (range_loop_skip pie order uuid walked.count' walked.seen' b [] t [] skipped
            ∙ range_loop_done pie order uuid walked.count' (walked.seen' ++ b ∷ []) []) in
      record {
        count' = walked.count';
        kept = walked.seen' ++ b ∷ [];
        same = simp map-append (ap (λ xs. xs ++ without_attributes b ∷ []) walked.same);
        returned = walked.reaches ∙ ap (λ (r : Run BackfillProposal Queues). r.ending) all_passed;
      }

-- If there are more tickets than backfill tickets, and at least one of these, all with
-- attribute maps, then the call returns the tickets behind the first ones, of which it has used
-- up one for each backfill ticket, and all of the backfill tickets, up to their attributes,
-- also those that a proposal was sent for.
pub build_backfill_match-keeps :
    (pie : Pie) (order : PartyMap → PartyMap) (uuid : ℕ → String) (count : ℕ)
    (new_ticket : Option Ticket) (new_backfill_ticket : Option BackfillTicket)
    (unmatched : List Ticket) (unmatched_backfill : List BackfillTicket) (served : List Ticket)
    (t : Ticket) (ts : List Ticket) (passed : List BackfillTicket)
    → appended unmatched new_ticket ≡ served ++ t ∷ ts
    → appended unmatched_backfill new_backfill_ticket ≡ passed
    → length passed ≡ length served
    → 0 < length passed
    → All HasMap passed
    → Leaves (t ∷ ts) passed (
        build_backfill_match pie order uuid count new_ticket new_backfill_ticket unmatched
          unmatched_backfill)
build_backfill_match-keeps pie order uuid count nt nb unmatched waiting served t ts passed e f level
      some_passed maps =
    let w = rw append-nil at (walk pie order uuid passed served [] t ts count [] level maps) in
    rw
      (build_backfill_match_loop pie order uuid count nt nb unmatched waiting (served ++ t ∷ ts)
        passed e f (lt→ltb _ _ some_passed) (length-append-cons served t ts))
      (record {
        count' = w.count';
        kept = w.seen';
        same = w.same;
        returned =
            w.reaches
            ∙ ap (λ (r : Run BackfillProposal Queues). r.ending)
                (range_loop_done pie order uuid w.count' w.seen' (t ∷ ts));
      })
