-- ===== src/Service/BackfillStream/Survival.antt =====
-- When `buildBackfillMatch` does not panic: no ticket has excluded sessions, and each backfill
-- ticket has an attribute map.
use matchmaking_function_grp.Prelude.{
  ℕ, ◌+◌, ◌≡◌, ◌≢◌, refl, ap, ◌∙◌, String, true, false, inl, inr, Bool-cases, ltb, ◌&&◌, Option,
  none, some, List, [], ◌∷◌, ◌++◌, length, All, All-append, arith,
}
use matchmaking_function_grp.External.{Pie, Protobuf, MakesMaps}
use matchmaking_function_grp.Outcome.{ok, ◌>>=◌, returns, Run, and_then-returns}
use matchmaking_function_grp.DataObjects.{Ticket, Match, BackfillTicket, BackfillProposal}
use matchmaking_function_grp.Parties.{PartyMap}
use matchmaking_function_grp.Backfill.{
  Queues, is_excluded, with_attributes, new_attributes, write_map, break_or, appended, range_loop,
  build_backfill_match,
}
use matchmaking_function_grp.Backfill.Rounds.{HasMap}
use matchmaking_function_grp.Proto.{BackfillMakeMatchesRequest, PartialMatch}
use matchmaking_function_grp.Convert.{
  proto_partial_match_to_matchfunction_match,
  proto_backfill_ticket_to_matchfunction_backfill_ticket,
}
use matchmaking_function_grp.Pipeline.{
  Received, message, eof, recv_error, Read, hands, passes, stops, crashes, inputs, read_input,
  process,
}
use matchmaking_function_grp.Service.BackfillStream.Defs.{
  Input, match_ticket, backfill_ticket, hand_backfill_ticket, read_backfill_request, backfill_input,
  backfill_code,
}

abbrev HasNoExclusions : Ticket → Type 0
HasNoExclusions t = t.excluded_sessions ≡ []

abbrev pub IsFree : Input → Type 0
IsFree (match_ticket t) = HasNoExclusions t
IsFree (backfill_ticket b) = HasMap b

-- The run returns, and the queues that it returns meet the same conditions.
record Lives (run : Run BackfillProposal Queues) : Type 0 where
  queues : Queues
  returned : run.ending ≡ returns queues
  tickets_free : All HasNoExclusions queues.0
  maps : All HasMap queues.1

is_excluded-false : (t : Ticket) (b : BackfillTicket) → HasNoExclusions t → is_excluded t b ≡ false
unfolding is_excluded
is_excluded-false t b h = rw h

module _ (pie : Pie) (order : PartyMap → PartyMap) (uuid : ℕ → String) where
  break_or-Lives :
      (bs : List BackfillTicket) (ts : List Ticket) (count : ℕ) (run : Run BackfillProposal Queues)
      → All HasMap bs
      → (ts ≢ [] → Lives run)
      → Lives (break_or ts bs count run)
  unfolding break_or
  break_or-Lives bs [] count run maps h = record {
    queues = ([], bs, count);
    returned = refl;
    tickets_free = tt;
    maps = maps;
  }
  break_or-Lives bs (t ∷ ts) count run maps h = h (λ e. cc e)

  range_loop-Lives :
      (bs : List BackfillTicket) (ts : List Ticket) (count : ℕ) (seen : List BackfillTicket)
      → ts ≢ []
      → All HasNoExclusions ts
      → All HasMap bs
      → All HasMap seen
      → Lives (range_loop pie order uuid count seen bs ts)
  unfolding range_loop write_map with_attributes
  range_loop-Lives [] ts count seen some_ticket free maps seen_maps = record {
    queues = (ts, seen, count);
    returned = refl;
    tickets_free = free;
    maps = seen_maps;
  }
  range_loop-Lives (b ∷ bs) [] count seen some_ticket free maps seen_maps =
      absurd (some_ticket refl)
  range_loop-Lives (b ∷ bs) (t ∷ ts) count seen some_ticket free maps seen_maps =
      let (fields, present) = maps.0 in
      let fields' = new_attributes pie order uuid count fields in
      let b' = with_attributes b fields' in
      let r =
        break_or-Lives bs ts (count + 3)
          (range_loop pie order uuid (count + 3) (seen ++ b' ∷ []) bs ts) maps.1
          (λ more.
            range_loop-Lives bs ts (count + 3) (seen ++ b' ∷ []) more free.1 maps.1
              (All-append HasMap seen (b' ∷ []) seen_maps ((fields', refl), tt))) in
      rw (is_excluded-false t b free.0, present)
        (record {
          queues = r.queues;
          returned = r.returned;
          tickets_free = r.tickets_free;
          maps = r.maps;
        })

  build_backfill_match-Lives :
      (count : ℕ) (nt : Option Ticket) (nb : Option BackfillTicket) (ts : List Ticket)
      (bs : List BackfillTicket)
      → All HasNoExclusions (appended ts nt)
      → All HasMap (appended bs nb)
      → Lives (build_backfill_match pie order uuid count nt nb ts bs)
  unfolding build_backfill_match
  build_backfill_match-Lives count nt nb ts bs free maps =
      elim (Bool-cases (ltb 0 (length (appended bs nb)) && ltb 0 (length (appended ts nt)))) [
        | inl enough ↦ rw enough (
            range_loop-Lives (appended bs nb) (appended ts nt) count []
              (λ e. not_empty (appended bs nb) (appended ts nt) e enough) free maps tt)
        | inr few ↦ rw few (record {
          queues = (appended ts nt, appended bs nb, count);
          returned = refl;
          tickets_free = free;
          maps = maps;
        })
      ]
    where
      not_empty :
          (ys : List BackfillTicket) (xs : List Ticket)
          → xs ≡ []
          → (ltb 0 (length ys) && ltb 0 (length xs)) ≡ true
          → ⊥
      not_empty ys xs e h = ground (arith, ap length e)

  backfill_input-Lives :
      (queues : Queues) (i : Input)
      → All HasNoExclusions queues.0
      → All HasMap queues.1
      → IsFree i
      → Lives (backfill_input pie order uuid queues i)
  unfolding backfill_input
  backfill_input-Lives (ts, bs, count) (match_ticket t) free maps h =
      build_backfill_match-Lives count (some t) none ts bs
        (All-append HasNoExclusions ts (t ∷ []) free (h, tt)) maps
  backfill_input-Lives (ts, bs, count) (backfill_ticket b) free maps h =
      build_backfill_match-Lives count none (some b) ts bs free
        (All-append HasMap bs (b ∷ []) maps (h, tt))

module _ (pie : Pie) (pb : Protobuf) (order : PartyMap → PartyMap) (uuid : ℕ → String) where
  -- The worker returns after all of its inputs.
  pub process-Lives :
      (queues : Queues) (is : List Input)
      → All HasNoExclusions queues.0
      → All HasMap queues.1
      → All IsFree is
      → (q : Queues) × ((process (backfill_code pie pb order uuid) queues is).ending ≡ returns q)
  process-Lives queues [] free maps h = (queues, refl)
  process-Lives queues (i ∷ is) free maps h =
      let l = backfill_input-Lives pie order uuid queues i free maps h.0 in
      let next = λ (q : Queues). process (backfill_code pie pb order uuid) q is in
      let (q, returned) = process-Lives l.queues is l.tickets_free l.maps h.1 in
      (
        q,
        ap (λ (r : Run BackfillProposal Queues). r.ending)
              (and_then-returns (backfill_input pie order uuid queues i) next l.queues l.returned)
            ∙ returned,
      )

-- A ticket excludes no session.
abbrev pub IsUnrestricted : Input → Type 0
IsUnrestricted (match_ticket t) = HasNoExclusions t
IsUnrestricted (backfill_ticket b) = Unit

-- A backfill ticket has an attribute map.
abbrev pub IsMapped : Input → Type 0
IsMapped (match_ticket t) = Unit
IsMapped (backfill_ticket b) = HasMap b

abbrev HandsMap : Read Input → Type 0
HandsMap (hands i) = IsMapped i
HandsMap passes = Unit
HandsMap stops = Unit
HandsMap (crashes p) = Unit

pub unrestricted-IsFree :
    (is : List Input) → All IsMapped is → All IsUnrestricted is → All IsFree is
unrestricted-IsFree [] m h = tt
unrestricted-IsFree (match_ticket t ∷ is) m h = (h.0, unrestricted-IsFree is m.1 h.1)
unrestricted-IsFree (backfill_ticket b ∷ is) m h = (m.0, unrestricted-IsFree is m.1 h.1)

module _ (pie : Pie) (pb : Protobuf) (maps : MakesMaps pb) where
  partial-HandsMap :
      (o : Option (PartialMatch pb.Struct pb.Timestamp)) (build : Match → BackfillTicket)
      → ((m : Match) → (build m).partial_match ≡ m)
      → HandsMap (
          hand_backfill_ticket
            (proto_partial_match_to_matchfunction_match pie pb o >>= λ m. ok (build m)))
  unfolding proto_partial_match_to_matchfunction_match
  partial-HandsMap none build same = tt
  partial-HandsMap (some m) build same =
      let (fields, e) = maps m.match_attributes in
      (fields, ap (λ (x : Match). x.match_attributes) (same _) ∙ e)

  read-HandsMap :
      (r : Received (BackfillMakeMatchesRequest pb.Struct pb.Timestamp))
      → HandsMap (read_backfill_request pie pb r)
  unfolding read_backfill_request proto_backfill_ticket_to_matchfunction_backfill_ticket
  read-HandsMap (message (BackfillMakeMatchesRequest.ticket t)) = tt
  read-HandsMap (message (BackfillMakeMatchesRequest.backfill_ticket t)) =
      partial-HandsMap t.partial_match _ (λ m. refl)
  read-HandsMap (message (BackfillMakeMatchesRequest.parameters p)) = tt
  read-HandsMap (message BackfillMakeMatchesRequest.unset) = tt
  read-HandsMap eof = tt
  read-HandsMap (recv_error e) = tt

  read-IsMapped :
      (order : PartyMap → PartyMap) (uuid : ℕ → String) (x : Read Input) (is : List Input)
      → HandsMap x
      → All IsMapped is
      → All IsMapped (read_input (backfill_code pie pb order uuid) x is)
  read-IsMapped order uuid (hands i) is m h = (m, h)
  read-IsMapped order uuid passes is m h = h
  read-IsMapped order uuid stops is m h = tt
  read-IsMapped order uuid (crashes p) is m h = tt

  -- What the reader hands on always has an attribute map.
  pub inputs-IsMapped :
      (order : PartyMap → PartyMap) (uuid : ℕ → String)
      (stream : List (Received (BackfillMakeMatchesRequest pb.Struct pb.Timestamp)))
      → All IsMapped (inputs (backfill_code pie pb order uuid) stream)
  inputs-IsMapped order uuid [] = tt
  inputs-IsMapped order uuid (r ∷ rest) =
      read-IsMapped order uuid (read_backfill_request pie pb r)
        (inputs (backfill_code pie pb order uuid) rest) (read-HandsMap r)
        (inputs-IsMapped order uuid rest)
