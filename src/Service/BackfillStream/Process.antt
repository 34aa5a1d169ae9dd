-- ===== src/Service/BackfillStream/Process.antt =====
-- The worker of `BackfillMatches` is the goroutine that Backfill describes, and how much it sends.
use matchmaking_function_grp.Prelude.{
  ℕ, suc, ◌+◌, ◌≤◌, ◌≡◌, refl, String, true, inl, inr, Bool-cases, ltb, ◌&&◌, Option, none, some,
  List, [], ◌∷◌, ◌++◌, map, length, length-append, arith,
}
use matchmaking_function_grp.Value.{Attributes, Fields}
use matchmaking_function_grp.External.{Pie, Protobuf}
use matchmaking_function_grp.Outcome.{
  Ending, returns, panics, running, Run, and_then, map_run, map_run-and_then,
}
use matchmaking_function_grp.DataObjects.{Ticket, BackfillTicket, BackfillProposal}
use matchmaking_function_grp.Parties.{PartyMap}
use matchmaking_function_grp.Backfill.{
  Queues, is_excluded, with_attributes, new_attributes, write_map, break_or, appended, range_loop,
  build_backfill_match,
}
use matchmaking_function_grp.Backfill.Loop
use matchmaking_function_grp.Backfill.Loop.{Event, Phase, backfill_loop}
use matchmaking_function_grp.Pipeline.{process}
use matchmaking_function_grp.Service.BackfillStream.Defs.{
  Input, match_ticket, backfill_ticket, backfill_input, backfill_code,
}

abbrev pub as_event : Input → Event
as_event (match_ticket t) = Loop.ticket_received t
as_event (backfill_ticket t) = Loop.backfill_ticket_received t

module _ (pie : Pie) (pb : Protobuf) (order : PartyMap → PartyMap) (uuid : ℕ → String) where
  pub backfill_loop-process :
      (is : List Input) (queues : Queues)
      → backfill_loop pie order uuid (map as_event is) true true queues
        ≡ map_run Phase.waiting (process (backfill_code pie pb order uuid) queues is)
  unfolding backfill_loop backfill_input
  backfill_loop-process [] queues = refl
  backfill_loop-process (match_ticket t ∷ is) (tickets, waiting, count) =
      map_run-and_then Phase.waiting
        (λ (q : Queues). process (backfill_code pie pb order uuid) q is)
        (λ (q : Queues). backfill_loop pie order uuid (map as_event is) true true q)
        (λ q. backfill_loop-process is q)
        (build_backfill_match pie order uuid count (some t) none tickets waiting)
  backfill_loop-process (backfill_ticket t ∷ is) (tickets, waiting, count) =
      map_run-and_then Phase.waiting
        (λ (q : Queues). process (backfill_code pie pb order uuid) q is)
        (λ (q : Queues). backfill_loop pie order uuid (map as_event is) true true q)
        (λ q. backfill_loop-process is q)
        (build_backfill_match pie order uuid count none (some t) tickets waiting)

-- How many tickets are left where a run returns.
abbrev left : Ending Queues → ℕ
left (returns queues) = length queues.0
left (panics p) = 0
left running = 0

-- Each proposal uses up a ticket of the queue.
abbrev Spends : ℕ → Run BackfillProposal Queues → Type 0
Spends n run = length run.sent + left run.ending ≤ n

module _ (pie : Pie) (order : PartyMap → PartyMap) (uuid : ℕ → String) where
  break_or-Spends :
      (bs : List BackfillTicket) (ts : List Ticket) (count : ℕ) (run : Run BackfillProposal Queues)
      → Spends (length ts) run
      → Spends (length ts) (break_or ts bs count run)
  unfolding break_or
  break_or-Spends bs [] count run h = omega arith
  break_or-Spends bs (t ∷ ts) count run h = h

  write_map-Spends :
      (n : ℕ) (o : Attributes) (write : Fields → Run BackfillProposal Queues)
      → ((fields : Fields) → Spends n (write fields))
      → Spends n (write_map o write)
  unfolding write_map
  write_map-Spends n none write h = omega arith
  write_map-Spends n (some fields) write h = h fields

  range_loop-Spends :
      (bs : List BackfillTicket) (ts : List Ticket) (count : ℕ) (seen : List BackfillTicket)
      → Spends (length ts) (range_loop pie order uuid count seen bs ts)
  unfolding range_loop
  range_loop-Spends [] ts count seen = omega arith
  range_loop-Spends (b ∷ bs) [] count seen = omega arith
  range_loop-Spends (b ∷ bs) (t ∷ ts) count seen = elim (Bool-cases (is_excluded t b)) [
    | inl skipped ↦ rw skipped (omega (arith, range_loop-Spends bs ts count (seen ++ b ∷ [])))
    | inr free ↦ rw free (
        write_map-Spends (suc (length ts)) b.partial_match.match_attributes _ (λ fields. omega (
          arith,
          break_or-Spends bs ts (count + 3) _ (
              range_loop-Spends bs ts (count + 3)
                (seen ++ with_attributes b (new_attributes pie order uuid count fields) ∷ [])),
        )))
  ]

  build_backfill_match-Spends :
      (count : ℕ) (nt : Option Ticket) (nb : Option BackfillTicket) (ts : List Ticket)
      (bs : List BackfillTicket)
      → Spends (length (appended ts nt)) (build_backfill_match pie order uuid count nt nb ts bs)
  unfolding build_backfill_match
  build_backfill_match-Spends count nt nb ts bs =
      elim (Bool-cases (ltb 0 (length (appended bs nb)) && ltb 0 (length (appended ts nt)))) [
        | inl enough ↦ rw enough (range_loop-Spends (appended bs nb) (appended ts nt) count [])
        | inr few ↦ rw few (omega arith)
      ]

  backfill_input-Spends :
      (queues : Queues) (i : Input)
      → Spends (length queues.0 + 1) (backfill_input pie order uuid queues i)
  unfolding backfill_input
  backfill_input-Spends (ts, bs, count) (match_ticket t) =
      omega
        (arith, build_backfill_match-Spends count (some t) none ts bs, length-append ts (t ∷ []))
  backfill_input-Spends (ts, bs, count) (backfill_ticket b) =
      omega (arith, build_backfill_match-Spends count none (some b) ts bs)

-- The rest of a run sends at most as many results as tickets are left, and one for each input.
length-after :
    (sent : List BackfillProposal) (e : Ending Queues) (next : Queues → Run BackfillProposal Queues)
    (n k : ℕ)
    → length sent + left e ≤ n + 1
    → ((queues : Queues) → length (next queues).sent ≤ length queues.0 + k)
    → length (and_then (record { sent = sent; ending = e }) next).sent ≤ n + suc k
length-after sent (returns queues) next n k h more =
    omega (arith, length-append sent (next queues).sent, more queues)
length-after sent (panics p) next n k h more = omega arith
length-after sent running next n k h more = omega arith

module _ (pie : Pie) (pb : Protobuf) (order : PartyMap → PartyMap) (uuid : ℕ → String) where
  pub length-process :
      (queues : Queues) (is : List Input)
      → length (process (backfill_code pie pb order uuid) queues is).sent
        ≤ length queues.0 + length is
  length-process queues [] = omega arith
  length-process queues (i ∷ is) =
      let run = backfill_input pie order uuid queues i in
      length-after run.sent run.ending (λ q. process (backfill_code pie pb order uuid) q is)
        (length queues.0) (length is) (backfill_input-Spends pie order uuid queues i)
        (λ q. length-process q is)
