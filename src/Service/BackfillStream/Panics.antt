-- ===== src/Service/BackfillStream/Panics.antt =====
-- Which panics the goroutines of `BackfillMatches` can meet, and on what account.
use matchmaking_function_grp.Prelude.{
  ℕ, ◌+◌, ◌≡◌, ◌≢◌, ◌⊎◌, refl, ap, sym, subst, ◌∙◌, String, inl, inr, Bool-cases, ltb, ◌&&◌, Option,
  none, some, List, [], ◌∷◌, ◌++◌, length, All, All-append, All-append_left,
}
use matchmaking_function_grp.External.{Pie, Protobuf, MakesMaps}
use matchmaking_function_grp.Outcome.{
  ok, Panic, index_out_of_range, nil_dereference, Ending, returns, panics, running, Run, and_then,
  ◌>>=◌,
}
use matchmaking_function_grp.DataObjects.{Ticket, Match, BackfillTicket, BackfillProposal}
use matchmaking_function_grp.Proto
use matchmaking_function_grp.Proto.{BackfillMakeMatchesRequest, BackfillResponse, PartialMatch}
use matchmaking_function_grp.Convert.{
  proto_partial_match_to_matchfunction_match,
  proto_backfill_ticket_to_matchfunction_backfill_ticket,
}
use matchmaking_function_grp.Parties.{PartyMap}
use matchmaking_function_grp.Backfill.{
  Queues, is_excluded, with_attributes, new_attributes, write_map, break_or, appended, range_loop,
  build_backfill_match,
}
use matchmaking_function_grp.Backfill.Rounds.{HasMap}
use matchmaking_function_grp.Pipeline.{
  Received, message, eof, recv_error, crashes, Code, Handler, Steps, Crash, start, inputs, process,
}
use matchmaking_function_grp.Pipeline.Panics.{Steps-Crash}
use matchmaking_function_grp.Service.BackfillStream.Defs.{
  Input, match_ticket, backfill_ticket, hand_backfill_ticket, read_backfill_request, backfill_input,
  backfill_code,
}
use matchmaking_function_grp.Service.BackfillStream.Survival.{
  IsMapped, IsUnrestricted, unrestricted-IsFree, inputs-IsMapped, process-Lives,
}

-- The end of a run whose backfill tickets have attribute maps.
abbrev Bounded : Ending Queues → Type 0
Bounded (returns queues) = All HasMap queues.1
Bounded (panics p) = p ≡ index_out_of_range
Bounded running = ⊥

module _ (pie : Pie) (order : PartyMap → PartyMap) (uuid : ℕ → String) where
  break_or-Bounded :
      (bs : List BackfillTicket) (ts : List Ticket) (count : ℕ) (run : Run BackfillProposal Queues)
      → All HasMap bs
      → Bounded run.ending
      → Bounded (break_or ts bs count run).ending
  unfolding break_or
  break_or-Bounded bs [] count run maps h = maps
  break_or-Bounded bs (t ∷ ts) count run maps h = h

  range_loop-Bounded :
      (bs : List BackfillTicket) (ts : List Ticket) (count : ℕ) (seen : List BackfillTicket)
      → All HasMap bs
      → All HasMap seen
      → Bounded (range_loop pie order uuid count seen bs ts).ending
  unfolding range_loop write_map with_attributes
  range_loop-Bounded [] ts count seen maps seen_maps = seen_maps
  range_loop-Bounded (b ∷ bs) [] count seen maps seen_maps = refl
  range_loop-Bounded (b ∷ bs) (t ∷ ts) count seen maps seen_maps =
      let (fields, present) = maps.0 in
      let fields' = new_attributes pie order uuid count fields in
      let b' = with_attributes b fields' in
      elim (Bool-cases (is_excluded t b)) [
        | inl skipped ↦ rw skipped (
            range_loop-Bounded bs ts count (seen ++ b ∷ []) maps.1
              (All-append HasMap seen (b ∷ []) seen_maps (maps.0, tt)))
        | inr free ↦
            rw (free, present)
              (break_or-Bounded bs ts (count + 3)
                (range_loop pie order uuid (count + 3) (seen ++ b' ∷ []) bs ts) maps.1
                (range_loop-Bounded bs ts (count + 3) (seen ++ b' ∷ []) maps.1
                  (All-append HasMap seen (b' ∷ []) seen_maps ((fields', refl), tt))))
      ]

  build_backfill_match-Bounded :
      (count : ℕ) (nt : Option Ticket) (nb : Option BackfillTicket) (ts : List Ticket)
      (bs : List BackfillTicket)
      → All HasMap (appended bs nb)
      → Bounded (build_backfill_match pie order uuid count nt nb ts bs).ending
  unfolding build_backfill_match
  build_backfill_match-Bounded count nt nb ts bs maps =
      elim (Bool-cases (ltb 0 (length (appended bs nb)) && ltb 0 (length (appended ts nt)))) [
        | inl enough ↦
            rw enough (range_loop-Bounded (appended bs nb) (appended ts nt) count [] maps tt)
        | inr few ↦ rw few maps
      ]

  backfill_input-Bounded :
      (queues : Queues) (i : Input)
      → All HasMap queues.1
      → IsMapped i
      → Bounded (backfill_input pie order uuid queues i).ending
  unfolding backfill_input
  backfill_input-Bounded (ts, bs, count) (match_ticket t) maps h =
      build_backfill_match-Bounded count (some t) none ts bs maps
  backfill_input-Bounded (ts, bs, count) (backfill_ticket b) maps h =
      build_backfill_match-Bounded count none (some b) ts bs
        (All-append HasMap bs (b ∷ []) maps (h, tt))

returns-panics : {q : Queues} {p : Panic} → ◌≢◌ {A = Ending Queues} (returns q) (panics p)
returns-panics h = cc

and_then-Bounded :
    (r : Run BackfillProposal Queues) (next : Queues → Run BackfillProposal Queues)
    (e : Ending Queues)
    → r.ending ≡ e
    → Bounded e
    → ((q : Queues) → All HasMap q.1 → Bounded (next q).ending)
    → Bounded (and_then r next).ending
and_then-Bounded r next (returns q) h b more = rw h (more q b)
and_then-Bounded r next (panics p) h b more = rw h b
and_then-Bounded r next running h b more = absurd b

module _ (pie : Pie) (pb : Protobuf) (order : PartyMap → PartyMap) (uuid : ℕ → String) where
  abbrev Request : Type 0
  Request = BackfillMakeMatchesRequest pb.Struct pb.Timestamp

  abbrev Response : Type 0
  Response = BackfillResponse pb.Struct pb.Timestamp

  abbrev code : Code Request Input BackfillProposal Response Queues
  code = backfill_code pie pb order uuid

  process-Bounded :
      (queues : Queues) (is : List Input)
      → All HasMap queues.1
      → All IsMapped is
      → Bounded (process code queues is).ending
  process-Bounded queues [] maps h = maps
  process-Bounded queues (i ∷ is) maps h =
      let run = backfill_input pie order uuid queues i in
      and_then-Bounded run (λ q. process code q is) run.ending refl
        (backfill_input-Bounded pie order uuid queues i maps h.0)
        (λ q m. process-Bounded q is m h.1)

  -- The message is a backfill ticket with no partial match.
  IsIncomplete : Received Request → Type 0
  IsIncomplete r =
      (ticket : Proto.BackfillTicket pb.Struct pb.Timestamp) × (r
        ≡ message (BackfillMakeMatchesRequest.backfill_ticket ticket))
      × (ticket.partial_match ≡ none)

  partial-crashes :
      (o : Option (PartialMatch pb.Struct pb.Timestamp)) (build : Match → BackfillTicket)
      (p : Panic)
      → hand_backfill_ticket
          (proto_partial_match_to_matchfunction_match pie pb o >>= λ m. ok (build m))
        ≡ crashes p
      → (p ≡ nil_dereference) × (o ≡ none)
  unfolding proto_partial_match_to_matchfunction_match
  partial-crashes none build p h = (cc, refl)
  partial-crashes (some m) build p h = cc

  read-crashes :
      (r : Received Request) (p : Panic)
      → read_backfill_request pie pb r ≡ crashes p
      → (p ≡ nil_dereference) × IsIncomplete r
  unfolding read_backfill_request proto_backfill_ticket_to_matchfunction_backfill_ticket
      IsIncomplete
  read-crashes (message (BackfillMakeMatchesRequest.ticket t)) p h = cc
  read-crashes (message (BackfillMakeMatchesRequest.backfill_ticket t)) p h =
      let (same, incomplete) = partial-crashes t.partial_match _ p h in
      (same, (t, refl, incomplete))
  read-crashes (message (BackfillMakeMatchesRequest.parameters q)) p h = cc
  read-crashes (message BackfillMakeMatchesRequest.unset) p h = cc
  read-crashes eof p h = cc
  read-crashes (recv_error e) p h = cc

  -- If `AsMap` of structpb always makes a map: if after any steps a goroutine of
  -- `BackfillMatches` is about to panic, then either with a nil dereference, and there is a
  -- backfill ticket with no partial match in the stream, or with an index out of range, and not
  -- every ticket that the reader takes from the stream is without excluded sessions.
  pub backfill_stream-Crash :
      (maps : MakesMaps pb) (stream : List (Received Request)) (k : ℕ)
      (s : Handler Request Input BackfillProposal Response Queues)
      → Steps code (start code ([], [], 0) stream) k s
      → (p : Panic) → Crash code s p
      → ((p ≡ nil_dereference)
          × (before : List (Received Request)) × (ticket : Proto.BackfillTicket pb.Struct
              pb.Timestamp)
          × (behind : List (Received Request)) × (stream
              ≡ before ++ message (BackfillMakeMatchesRequest.backfill_ticket ticket) ∷ behind)
          × (ticket.partial_match ≡ none))
        ⊎ ((p ≡ index_out_of_range) × ¬ All IsUnrestricted (inputs code stream))
  unfolding IsIncomplete
  backfill_stream-Crash maps stream k s path p crash =
      elim (Steps-Crash code ([], [], 0) stream path crash) [
        | inl f ↦
            let (same, (ticket, e, incomplete)) = read-crashes f.fatal p f.panics_with in
            inl (
              same,
              f.before,
              ticket,
              f.behind,
              f.stands ∙ ap (λ r. f.before ++ r ∷ f.behind) e,
              incomplete,
            )
        | inr o ↦
            let mapped = inputs-IsMapped pie pb maps order uuid stream in
            let some_mapped =
              All-append_left IsMapped o.taken o.later (subst (All IsMapped) (sym o.came) mapped) in
            inr (
              subst Bounded o.stands (process-Bounded ([], [], 0) o.taken tt some_mapped),
              λ unrestricted.
                  let (q, back) =
                    process-Lives pie pb order uuid ([], [], 0) o.taken tt tt
                      (unrestricted-IsFree o.taken some_mapped (
                        All-append_left IsUnrestricted o.taken o.later
                          (subst (All IsUnrestricted) (sym o.came) unrestricted))) in
                  returns-panics (sym back ∙ o.stands),
            )
      ]
