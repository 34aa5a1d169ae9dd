-- ===== src/Backfill/Remaining.antt =====
-- What a call of `buildBackfillMatch` leaves in the queues, without running its loop.
use matchmaking_function_grp.Prelude.{
  ℕ, suc, ◌+◌, ◌≡◌, refl, ap, sym, subst, ◌∙◌, String, true, false, inl, inr, Bool-cases, ◌&&◌,
  if◌then◌else◌, ltb, Option, none, some, List, [], ◌∷◌, ◌++◌, length, drop, All, All-append_left,
  ◌<◌, lt→ltb, le→ltb, arith,
}
use matchmaking_function_grp.External.{Pie}
use matchmaking_function_grp.Outcome.{Run, panics, index_out_of_range}
use matchmaking_function_grp.DataObjects.{Ticket, BackfillTicket, BackfillProposal}
use matchmaking_function_grp.Parties.{PartyMap}
use matchmaking_function_grp.Backfill.Defs.{Queues, is_excluded, appended, build_backfill_match}
use matchmaking_function_grp.Backfill.LastPair.{
  last_pair, Meets, last_pair-Meets, last_pair-Exceeds, Meets-length,
}
use matchmaking_function_grp.Backfill.Rounds.{HasMap}
use matchmaking_function_grp.Backfill.Endings.{
  Leaves, build_backfill_match-panics, build_backfill_match-last, build_backfill_match-excluded,
  build_backfill_match-keeps,
}

-- Both queues after the call, from the last pair; `none` is a panic.
abbrev pub remaining_by :
    List BackfillTicket
    → List Ticket
    → Option (BackfillTicket × Ticket)
    → Option (List Ticket × List BackfillTicket)
remaining_by bs ts none = some (drop (length bs) ts, bs)
remaining_by bs ts (some (b, t)) =
    if is_excluded t b
    then (if ltb (length ts) (length bs) then none else some ([], bs))
    else some ([], drop (length ts) bs)

abbrev pub remaining :
    List BackfillTicket → List Ticket → Option (List Ticket × List BackfillTicket)
remaining bs ts = remaining_by bs ts (last_pair bs ts)

-- The run ends in this way, the backfill tickets up to their attributes.
abbrev pub EndsAs :
    Option (List Ticket × List BackfillTicket) → Run BackfillProposal Queues → Type 0
EndsAs none run = run.ending ≡ panics index_out_of_range
EndsAs (some (ts, bs)) run = Leaves ts bs run

All-behind :
    (passed : List BackfillTicket) (b : BackfillTicket) (behind : List BackfillTicket)
    → All HasMap (passed ++ b ∷ behind)
    → HasMap b
All-behind [] b behind h = h.0
All-behind (c ∷ passed) b behind h = All-behind passed b behind h.1

module _ (pie : Pie) (order : PartyMap → PartyMap) (uuid : ℕ → String) (count : ℕ)
    (nt : Option Ticket) (nb : Option BackfillTicket) (unmatched : List Ticket)
    (waiting : List BackfillTicket) where
  abbrev the_run : Run BackfillProposal Queues
  the_run = build_backfill_match pie order uuid count nt nb unmatched waiting

  few-EndsAs :
      (bs : List BackfillTicket) (ts : List Ticket)
      → appended waiting nb ≡ bs
      → appended unmatched nt ≡ ts
      → (ltb 0 (length bs) && ltb 0 (length ts)) ≡ false
      → Leaves ts bs the_run
  unfolding build_backfill_match
  few-EndsAs bs ts f e few = record {
    count' = count;
    kept = bs;
    same = refl;
    returned = rw (f, e, few);
  }

  -- The last ticket is excluded from the session that it meets.
  excluded-EndsAs :
      (bs : List BackfillTicket) (ts : List Ticket) (b : BackfillTicket) (t : Ticket)
      → appended waiting nb ≡ bs
      → appended unmatched nt ≡ ts
      → All HasMap bs
      → (m : Meets bs ts b t) → is_excluded t b ≡ true
      → EndsAs (if ltb (length ts) (length bs) then none else some ([], bs)) the_run
  excluded-EndsAs bs ts b t f e maps m skipped = by_behind m.behind refl
    where
      some_passed : All HasMap m.passed
      some_passed =
          All-append_left HasMap m.passed (b ∷ m.behind)
            (subst (All HasMap) m.backfill_tickets maps)

      by_behind :
          (behind : List BackfillTicket)
          → m.behind ≡ behind
          → EndsAs (if ltb (length ts) (length bs) then none else some ([], bs)) the_run
      by_behind [] g =
          let same : bs ≡ m.passed ++ b ∷ [] =
            m.backfill_tickets ∙ ap (λ xs. m.passed ++ b ∷ xs) g in
          let level : length bs ≡ length ts + 0 =
            Meets-length bs ts b t m ∙ ap (λ xs. length ts + length xs) g in
          rw (le→ltb (length ts) (length bs) (omega (arith, level))) (
            subst (λ left. Leaves [] left the_run) (sym same)
              (build_backfill_match-excluded pie order uuid count nt nb unmatched waiting m.served t
                [] m.passed b m.behind (e ∙ m.tickets) (f ∙ m.backfill_tickets) m.level some_passed
                refl g skipped))
      by_behind (next ∷ more) g =
          let level : length bs ≡ length ts + suc (length more) =
            Meets-length bs ts b t m ∙ ap (λ xs. length ts + length xs) g in
          rw (lt→ltb (length ts) (length bs) (omega (arith, level))) (
            build_backfill_match-panics pie order uuid count nt nb unmatched waiting m.served t []
              m.passed b m.behind (e ∙ m.tickets) (f ∙ m.backfill_tickets) m.level some_passed next
              more refl g skipped)

  pair-EndsAs :
      (bs : List BackfillTicket) (t : Ticket) (ts : List Ticket)
      → appended waiting nb ≡ bs
      → appended unmatched nt ≡ t ∷ ts
      → 0 < length bs
      → All HasMap bs
      → (pair : Option (BackfillTicket × Ticket)) → last_pair bs (t ∷ ts) ≡ pair
      → EndsAs (remaining_by bs (t ∷ ts) pair) the_run
  pair-EndsAs bs t ts f e some_bs maps none h =
      let x = last_pair-Exceeds bs t ts h in
      subst (λ left. Leaves left bs the_run) (sym x.dropped)
        (build_backfill_match-keeps pie order uuid count nt nb unmatched waiting x.served x.next
          x.more bs (e ∙ x.tickets) f x.level some_bs maps)
  pair-EndsAs bs t ts f e some_bs maps (some (b, u)) h =
      let m = last_pair-Meets bs (t ∷ ts) b u h in
      elim (Bool-cases (is_excluded u b)) [
        | inl skipped ↦ rw skipped (excluded-EndsAs bs (t ∷ ts) b u f e maps m skipped)
        | inr free ↦ rw free (
            subst (λ left. Leaves [] left the_run) (sym m.dropped)
              (build_backfill_match-last pie order uuid count nt nb unmatched waiting m.served u []
                m.passed b m.behind (e ∙ m.tickets) (f ∙ m.backfill_tickets) m.level
                (All-append_left HasMap m.passed (b ∷ m.behind)
                  (subst (All HasMap) m.backfill_tickets maps))
                refl (All-behind m.passed b m.behind (subst (All HasMap) m.backfill_tickets maps))
                free))
      ]

  by_queues :
      (bs : List BackfillTicket) (ts : List Ticket)
      → appended waiting nb ≡ bs
      → appended unmatched nt ≡ ts
      → All HasMap bs
      → EndsAs (remaining bs ts) the_run
  by_queues [] ts f e maps = few-EndsAs [] ts f e refl
  by_queues (b ∷ bs) [] f e maps =
      few-EndsAs (b ∷ bs) [] f e (rw (lt→ltb 0 (suc (length bs)) (omega arith)) refl)
  by_queues (b ∷ bs) (t ∷ ts) f e maps =
      pair-EndsAs (b ∷ bs) t ts f e (omega arith) maps (last_pair (b ∷ bs) (t ∷ ts)) refl

-- If every backfill ticket has an attribute map: how a call of `buildBackfillMatch` ends
-- depends only on the last ticket and the backfill ticket that stands as far back in the other
-- queue. If there is none, the call returns the tickets behind as many as there are backfill
-- tickets, and all backfill tickets. If the ticket is not excluded from its session, the call
-- returns no ticket and the backfill tickets behind that one. If it is excluded, the call
-- panics with an index out of range where a backfill ticket is behind that one, and else it
-- returns no ticket and all backfill tickets. The backfill tickets are the old ones up to their
-- attributes.
pub build_backfill_match-EndsAs :
    (pie : Pie) (order : PartyMap → PartyMap) (uuid : ℕ → String) (count : ℕ)
    (new_ticket : Option Ticket) (new_backfill_ticket : Option BackfillTicket)
    (unmatched : List Ticket) (unmatched_backfill : List BackfillTicket)
    → All HasMap (appended unmatched_backfill new_backfill_ticket)
    → EndsAs
        (remaining
          (appended unmatched_backfill new_backfill_ticket)
          (appended unmatched new_ticket))
        (build_backfill_match pie order uuid count new_ticket new_backfill_ticket unmatched
          unmatched_backfill)
build_backfill_match-EndsAs pie order uuid count nt nb unmatched waiting maps =
    by_queues pie order uuid count nt nb unmatched waiting (appended waiting nb)
      (appended unmatched nt) refl refl maps
