-- ===== src/Backfill/Once.antt =====
-- Which tickets the proposals of a whole run of `BackfillMatches` use.
use matchmaking_function_grp.Prelude.{
  ℕ, ◌+◌, String, ◌≡◌, refl, ap, sym, ◌∙◌, subst, Bool, true, false, inl, inr, Bool-cases, Option,
  none, some, List, [], ◌∷◌, ◌++◌, ltb, length, ◌&&◌,
}
use mathlib.Core.List.{Sublist, append_assoc, nil-sublist, sublist-append_left}
use mathlib.Core.List.Sublist
use matchmaking_function_grp.Value.{Attributes, Fields}
use matchmaking_function_grp.External.{Pie}
use matchmaking_function_grp.Outcome.{Run, Ending, returns, panics, running, return, send, and_then}
use matchmaking_function_grp.DataObjects.{Ticket, BackfillTicket, BackfillProposal}
use matchmaking_function_grp.Rules.{RuleSet, no_rules, game_rules, other_type}
use matchmaking_function_grp.Parties.{PartyMap}
use matchmaking_function_grp.Backfill.Defs.{
  Queues, is_excluded, new_proposal, write_map, break_or, appended, range_loop,
  build_backfill_match,
}
use matchmaking_function_grp.Backfill.Loop.{
  Event, ticket_received, tickets_closed, backfill_ticket_received, backfill_tickets_closed,
  ctx_done, Phase, backfill_loop, backfill_matches,
}

-- The tickets that proposals add to sessions, in the order of the proposals.
abbrev pub added : List BackfillProposal → List Ticket
added [] = []
added (p ∷ ps) = p.added_tickets ++ added ps

-- The tickets among what the goroutine may see.
abbrev pub tickets_of : List Event → List Ticket
tickets_of [] = []
tickets_of (ticket_received ticket ∷ events) = ticket ∷ tickets_of events
tickets_of (tickets_closed ∷ events) = tickets_of events
tickets_of (backfill_ticket_received ticket ∷ events) = tickets_of events
tickets_of (backfill_tickets_closed ∷ events) = tickets_of events
tickets_of (ctx_done ∷ events) = tickets_of events

added-append : (xs ys : List BackfillProposal) → added (xs ++ ys) ≡ added xs ++ added ys
added-append [] ys = refl
added-append (x ∷ xs) ys = rw (added-append xs ys, append_assoc)

-- The proposals of the run use tickets that it has taken from the front of the queue.
record Uses (queue : List Ticket) (run : Run BackfillProposal Queues) : Type 0 where
  taken : List Ticket
  rest : List Ticket
  split : taken ++ rest ≡ queue
  proposed : Sublist (added run.sent) taken
  left : (queues : Queues) → run.ending ≡ returns queues → queues.0 ≡ rest

returns_injective : {A : Type 0} {a b : A} → ◌≡◌ {A = Ending A} (returns a) (returns b) → a ≡ b
returns_injective h = cc

some_injective : {A : Type 0} {a b : A} → ◌≡◌ {A = Option A} (some a) (some b) → a ≡ b
some_injective h = cc

return-Uses : (queues : Queues) → Uses queues.0 (return queues)
return-Uses queues = record {
  taken = [];
  rest = queues.0;
  split = refl;
  proposed = nil-sublist [];
  left = λ q h. ap (λ (x : Queues). x.0) (sym (returns_injective h));
}

module _ (t : Ticket) (ts : List Ticket) (run : Run BackfillProposal Queues) where
  skip-Uses : Uses ts run → Uses (t ∷ ts) run
  skip-Uses u = record {
    taken = t ∷ u.taken;
    rest = u.rest;
    split = ap (◌∷◌ t) u.split;
    proposed = Sublist.cons t u.proposed;
    left = u.left;
  }

  send-Uses :
      (p : BackfillProposal) → p.added_tickets ≡ t ∷ [] → Uses ts run → Uses (t ∷ ts) (send p run)
  send-Uses p e u = record {
    taken = t ∷ u.taken;
    rest = u.rest;
    split = ap (◌∷◌ t) u.split;
    proposed = rw e (Sublist.cons-cons t u.proposed);
    left = u.left;
  }

module _ (pie : Pie) (order : PartyMap → PartyMap) (uuid : ℕ → String) where
  break_or-Uses :
      (bs : List BackfillTicket) (ts : List Ticket) (count : ℕ) (run : Run BackfillProposal Queues)
      → Uses ts run
      → Uses ts (break_or ts bs count run)
  unfolding break_or
  break_or-Uses bs [] count run u = return-Uses ([], bs, count)
  break_or-Uses bs (t ∷ ts) count run u = u

  write_map-Uses :
      (queue : List Ticket) (o : Attributes) (write : Fields → Run BackfillProposal Queues)
      → ((fields : Fields) → Uses queue (write fields))
      → Uses queue (write_map o write)
  unfolding write_map
  write_map-Uses queue none write u = record {
    taken = [];
    rest = queue;
    split = refl;
    proposed = nil-sublist [];
    left = λ q h. cc h;
  }
  write_map-Uses queue (some fields) write u = u fields

  range_loop-Uses :
      (bs : List BackfillTicket) (ts : List Ticket) (count : ℕ) (seen : List BackfillTicket)
      → Uses ts (range_loop pie order uuid count seen bs ts)
  unfolding range_loop new_proposal
  range_loop-Uses [] ts count seen = return-Uses (ts, seen, count)
  range_loop-Uses (b ∷ bs) [] count seen = record {
    taken = [];
    rest = [];
    split = refl;
    proposed = nil-sublist [];
    left = λ q h. cc h;
  }
  range_loop-Uses (b ∷ bs) (t ∷ ts) count seen = elim (Bool-cases (is_excluded t b)) [
    | inl skipped ↦ rw skipped (skip-Uses t ts _ (range_loop-Uses bs ts count (seen ++ b ∷ [])))
    | inr free ↦ rw free (
        write_map-Uses (t ∷ ts) b.partial_match.match_attributes _ (λ fields.
          send-Uses t ts _ _ refl
            (break_or-Uses bs ts (count + 3) _ (range_loop-Uses bs ts (count + 3) _))))
  ]

  build_backfill_match-Uses :
      (count : ℕ) (new_ticket : Option Ticket) (new_backfill_ticket : Option BackfillTicket)
      (unmatched : List Ticket) (unmatched_backfill : List BackfillTicket)
      → Uses (appended unmatched new_ticket) (
          build_backfill_match pie order uuid count new_ticket new_backfill_ticket unmatched
            unmatched_backfill)
  unfolding build_backfill_match
  build_backfill_match-Uses count nt nb unmatched waiting =
      elim (Bool-cases
        (ltb 0 (length (appended waiting nb)) && ltb 0 (length (appended unmatched nt)))) [
          | inl enough ↦
              rw enough (range_loop-Uses (appended waiting nb) (appended unmatched nt) count [])
          | inr few ↦ rw few (return-Uses (appended unmatched nt, appended waiting nb, count))
        ]

after_ending-Sublist :
    (sent : List BackfillProposal) (ending : Ending Queues)
    (next : Queues → Run BackfillProposal Phase) (taken rest later : List Ticket)
    → Sublist (added sent) taken
    → ((queues : Queues) → ending ≡ returns queues → queues.0 ≡ rest)
    → ((queues : Queues) → Sublist (added (next queues).sent) (queues.0 ++ later))
    → Sublist
        (added (and_then (record { sent = sent; ending = ending }) next).sent)
        (taken ++ (rest ++ later))
after_ending-Sublist sent (returns queues) next taken rest later used left more =
    rw (added-append sent (next queues).sent) (
      Sublist.append used (
        subst (λ q. Sublist (added (next queues).sent) (q ++ later)) (left queues refl)
          (more queues)))
after_ending-Sublist sent (panics p) next taken rest later used left more =
    Sublist.trans used (sublist-append_left taken (rest ++ later))
after_ending-Sublist sent running next taken rest later used left more =
    Sublist.trans used (sublist-append_left taken (rest ++ later))

and_then-Sublist :
    (queue later : List Ticket) (run : Run BackfillProposal Queues)
    (next : Queues → Run BackfillProposal Phase)
    → Uses queue run
    → ((queues : Queues) → Sublist (added (next queues).sent) (queues.0 ++ later))
    → Sublist (added (and_then run next).sent) (queue ++ later)
and_then-Sublist queue later run next u more =
    subst (Sublist (added (and_then run next).sent))
      (sym (append_assoc u.taken u.rest later) ∙ ap (λ q. q ++ later) u.split)
      (after_ending-Sublist run.sent run.ending next u.taken u.rest later u.proposed u.left more)

module _ (pie : Pie) (order : PartyMap → PartyMap) (uuid : ℕ → String) where
  backfill_loop-Sublist :
      (events : List Event) (more more_backfill : Bool) (queues : Queues)
      → Sublist
          (added (backfill_loop pie order uuid events more more_backfill queues).sent)
          (queues.0 ++ tickets_of events)
  unfolding backfill_loop
  backfill_loop-Sublist events false false queues = nil-sublist _
  backfill_loop-Sublist [] false true queues = nil-sublist _
  backfill_loop-Sublist [] true mb queues = nil-sublist _
  backfill_loop-Sublist (ctx_done ∷ events) false true queues = nil-sublist _
  backfill_loop-Sublist (ctx_done ∷ events) true mb queues = nil-sublist _
  backfill_loop-Sublist (tickets_closed ∷ events) false true queues =
      backfill_loop-Sublist events false true queues
  backfill_loop-Sublist (tickets_closed ∷ events) true mb queues =
      backfill_loop-Sublist events false mb queues
  backfill_loop-Sublist (backfill_tickets_closed ∷ events) false true queues =
      backfill_loop-Sublist events false false queues
  backfill_loop-Sublist (backfill_tickets_closed ∷ events) true mb queues =
      backfill_loop-Sublist events true false queues
  backfill_loop-Sublist (ticket_received ticket ∷ events) false true queues =
      Sublist.trans (backfill_loop-Sublist events false true queues) (
        Sublist.append (Sublist.refl queues.0)
          (Sublist.cons ticket (Sublist.refl (tickets_of events))))
  backfill_loop-Sublist (ticket_received ticket ∷ events) true mb (tickets, waiting, count) =
      subst (Sublist _) (append_assoc tickets (ticket ∷ []) (tickets_of events)) (
        and_then-Sublist (tickets ++ ticket ∷ []) (tickets_of events) _
          (backfill_loop pie order uuid events true mb)
          (build_backfill_match-Uses pie order uuid count (some ticket) none tickets waiting)
          (λ queues. backfill_loop-Sublist events true mb queues))
  backfill_loop-Sublist (backfill_ticket_received b ∷ events) true false queues =
      backfill_loop-Sublist events true false queues
  backfill_loop-Sublist (backfill_ticket_received b ∷ events) true true (tickets, waiting, count) =
      and_then-Sublist tickets (tickets_of events) _ (backfill_loop pie order uuid events true true)
        (build_backfill_match-Uses pie order uuid count none (some b) tickets waiting)
        (λ queues. backfill_loop-Sublist events true true queues)
  backfill_loop-Sublist (backfill_ticket_received b ∷ events) false true (tickets, waiting, count) =
      and_then-Sublist tickets (tickets_of events) _
        (backfill_loop pie order uuid events false true)
        (build_backfill_match-Uses pie order uuid count none (some b) tickets waiting)
        (λ queues. backfill_loop-Sublist events false true queues)

-- In a run of the goroutine that `BackfillMatches` starts, whether it waits, returns or panics
-- at the end, and in whatever order tickets and backfill tickets come, the tickets that
-- proposals add to sessions are a part of the sequence of tickets that the channel brings, in
-- its order, so that each arrival is used at most once.
pub backfill_matches-Sublist :
    (pie : Pie) (order : PartyMap → PartyMap) (uuid : ℕ → String) (count : ℕ) (rules : RuleSet)
    (events : List Event) (run : Run BackfillProposal Phase)
    → backfill_matches pie order uuid count rules events ≡ some run
    → Sublist (added run.sent) (tickets_of events)
unfolding backfill_matches
backfill_matches-Sublist pie order uuid count (game_rules rule) events run h =
    subst (λ r. Sublist (added r.sent) (tickets_of events)) (some_injective h)
      (backfill_loop-Sublist pie order uuid events true true ([], [], count))
backfill_matches-Sublist pie order uuid count no_rules events run h = cc
backfill_matches-Sublist pie order uuid count other_type events run h = cc
