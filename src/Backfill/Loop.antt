-- ===== src/Backfill/Loop.antt =====
-- The goroutine of `BackfillMatches`.
use matchmaking_function_grp.Prelude.{
  ℕ, String, Bool, true, false, Option, none, some, List, [], ◌∷◌,
}
use matchmaking_function_grp.External.{Pie}
use matchmaking_function_grp.Outcome.{Run, return, and_then}
use matchmaking_function_grp.DataObjects.{Ticket, BackfillTicket, BackfillProposal}
use matchmaking_function_grp.Rules.{RuleSet, no_rules, game_rules, other_type}
use matchmaking_function_grp.Parties.{PartyMap}
use matchmaking_function_grp.Backfill.Defs.{Queues, build_backfill_match}

-- What the `select` of the goroutine may see next.
pub data Event : Type 0 where
  ticket_received : Ticket → Event
  tickets_closed : Event
  backfill_ticket_received : BackfillTicket → Event
  backfill_tickets_closed : Event
  ctx_done : Event

-- The goroutine waits in `select`, or it has returned and closed the results channel.
pub data Phase : Type 0 where
  waiting : Queues → Phase
  closed : Queues → Phase

module _ (pie : Pie) (order : PartyMap → PartyMap) (uuid : ℕ → String) where
  -- The first two arguments tell whether `nextTicket` and `nextBackfillTicket` are still set. A nil
  -- channel is never ready, so an event on one is no event and is passed over.
  unfoldable pub backfill_loop : List Event → Bool → Bool → Queues → Run BackfillProposal Phase
  backfill_loop events false false queues = return (closed queues)
  backfill_loop [] more more_backfill queues = return (waiting queues)
  backfill_loop (ctx_done ∷ events) more more_backfill queues = return (closed queues)
  backfill_loop (tickets_closed ∷ events) more more_backfill queues =
      backfill_loop events false more_backfill queues
  backfill_loop (backfill_tickets_closed ∷ events) more more_backfill queues =
      backfill_loop events more false queues
  backfill_loop (ticket_received ticket ∷ events) false more_backfill queues =
      backfill_loop events false more_backfill queues
  backfill_loop (ticket_received ticket ∷ events) true more_backfill
        (tickets, backfill_tickets, count) =
      and_then
        (build_backfill_match pie order uuid count (some ticket) none tickets backfill_tickets)
        (backfill_loop events true more_backfill)
  backfill_loop (backfill_ticket_received ticket ∷ events) more false queues =
      backfill_loop events more false queues
  backfill_loop (backfill_ticket_received ticket ∷ events) more true
        (tickets, backfill_tickets, count) =
      and_then
        (build_backfill_match pie order uuid count none (some ticket) tickets backfill_tickets)
        (backfill_loop events more true)

  -- `none` is the nil channel.
  unfoldable pub backfill_matches : ℕ → RuleSet → List Event → Option (Run BackfillProposal Phase)
  backfill_matches count (game_rules rule) events =
      some (backfill_loop events true true ([], [], count))
  backfill_matches count no_rules events = none
  backfill_matches count other_type events = none
