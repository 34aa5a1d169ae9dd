-- ===== src/Backfill/Walk.antt =====
-- How `buildBackfillMatch` ends, and which tickets stay in the queues.
use matchmaking_function_grp.Prelude.{
  ℕ, ◌+◌, String, ◌≡◌, refl, ap, ◌∙◌, true, inl, inr, Bool-cases, Option, none, List, [], ◌∷◌, ◌++◌,
  map, All, length, length-append, ltb, lt→ltb, arith,
}
use mathlib.Core.List.{append_assoc, append-nil, map-append}
use matchmaking_function_grp.Value.{Fields}
use matchmaking_function_grp.External.{Pie}
use matchmaking_function_grp.Outcome.{Run}
use matchmaking_function_grp.DataObjects.{Ticket, BackfillTicket, BackfillProposal}
use matchmaking_function_grp.Parties.{PartyMap}
use matchmaking_function_grp.Backfill.Defs.{
  Queues, is_excluded, with_attributes, range_loop, appended, build_backfill_match,
}
use matchmaking_function_grp.Backfill.Rounds.{HasMap, kept, range_loop_skip, range_loop_propose}

-- The backfill ticket up to the attributes of its match, which a proposal writes to.
abbrev pub without_attributes : BackfillTicket → BackfillTicket
without_attributes b = record b {
  partial_match = record b.partial_match { match_attributes = none };
}

abbrev pub Same : List BackfillTicket → List BackfillTicket → Type 0
Same xs ys = map without_attributes xs ≡ map without_attributes ys

without-with :
    (b : BackfillTicket) (fields : Fields)
    → without_attributes (with_attributes b fields) ≡ without_attributes b
unfolding with_attributes
without-with b fields = refl

pub length-append-cons {ℓ} :
    {A : Type ℓ} (xs : List A) (x : A) (ys : List A) → ltb 0 (length (xs ++ x ∷ ys)) ≡ true
length-append-cons xs x ys = lt→ltb _ _ (omega (arith, length-append xs (x ∷ ys)))

append-cons :
    (xs : List Ticket) (t : Ticket) (ys : List Ticket)
    → (u : Ticket) × (zs : List Ticket) × (xs ++ t ∷ ys ≡ u ∷ zs)
append-cons [] t ys = (t, ys, refl)
append-cons (x ∷ xs) t ys = (x, xs ++ t ∷ ys, refl)

module _ (pie : Pie) (order : PartyMap → PartyMap) (uuid : ℕ → String) where
  -- The loop has passed some backfill tickets and stands before the next pair.
  pub record Walked (seen passed backfill_tickets : List BackfillTicket) (tickets : List Ticket)
      (run : Run BackfillProposal Queues) : Type 0 where
    pub count' : ℕ
    pub seen' : List BackfillTicket
    pub same : Same seen' (seen ++ passed)
    pub reaches :
        run.ending ≡ (range_loop pie order uuid count' seen' backfill_tickets tickets).ending

  Walked-cons :
      {seen rest bs : List BackfillTicket} (b b' : BackfillTicket) {ts : List Ticket}
      {run run' : Run BackfillProposal Queues}
      → without_attributes b' ≡ without_attributes b
      → run'.ending ≡ run.ending
      → Walked (seen ++ b' ∷ []) rest bs ts run
      → Walked seen (b ∷ rest) bs ts run'
  Walked-cons {seen} {rest} b b' e f w = record {
    count' = w.count';
    seen' = w.seen';
    same =
        w.same
        ∙ simp (map-append, append_assoc)
            (ap (λ x. map without_attributes seen ++ x ∷ map without_attributes rest) e);
    reaches = f ∙ w.reaches;
  }

  pub walk :
      (passed : List BackfillTicket) (served : List Ticket) (bs : List BackfillTicket) (t : Ticket)
      (ts : List Ticket) (count : ℕ) (seen : List BackfillTicket)
      → length passed ≡ length served
      → All HasMap passed
      → Walked seen passed bs
          (t ∷ ts)
          (range_loop pie order uuid count seen (passed ++ bs) (served ++ t ∷ ts))
  walk [] [] bs t ts count seen e h = record {
    count' = count;
    seen' = seen;
    same = rw append-nil;
    reaches = refl;
  }
  walk [] (u ∷ served) bs t ts count seen e h = absurd (omega arith)
  walk (b ∷ passed) [] bs t ts count seen e h = absurd (omega arith)
  walk (b ∷ passed) (u ∷ served) bs t ts count seen e ((fields, present), h) =
      let rest = served ++ t ∷ ts in
      let bs' = passed ++ bs in
      elim (Bool-cases (is_excluded u b)) [
        | inl skipped ↦
            Walked-cons b b refl
              (ap (λ r. r.ending) (range_loop_skip pie order uuid count seen b bs' u rest skipped))
              (walk passed served bs t ts count (seen ++ b ∷ []) (omega arith) h)
        | inr free ↦
            let (next, more, split) = append-cons served t ts in
            let b' = kept pie order uuid count seen b bs' u rest fields in
            Walked-cons b b' (without-with b _)
              (ap (λ r. r.ending)
                (range_loop_propose pie order uuid count seen b bs' u rest fields next more free
                  present split))
              (walk passed served bs t ts (count + 3) (seen ++ b' ∷ []) (omega arith) h)
      ]

  -- What `buildBackfillMatch` does when both queues hold something.
  pub build_backfill_match_loop :
      (count : ℕ) (nt : Option Ticket) (nb : Option BackfillTicket) (unmatched : List Ticket)
      (waiting : List BackfillTicket) (ts : List Ticket) (bs : List BackfillTicket)
      → appended unmatched nt ≡ ts
      → appended waiting nb ≡ bs
      → ltb 0 (length bs) ≡ true
      → ltb 0 (length ts) ≡ true
      → build_backfill_match pie order uuid count nt nb unmatched waiting
        ≡ range_loop pie order uuid count [] bs ts
  unfolding build_backfill_match
  build_backfill_match_loop count nt nb unmatched waiting ts bs e f some_bs some_ts =
      rw (e, f, some_bs, some_ts)
