-- ===== src/Backfill/LastPair.antt =====
-- Which backfill ticket the last ticket of a queue meets in the range loop of `buildBackfillMatch`.
use matchmaking_function_grp.Prelude.{
  suc, ◌+◌, ◌≡◌, refl, ap, ◌∙◌, some_injective, Option, none, some, List, [], ◌∷◌, ◌++◌, length,
  length-append, drop, arith,
}
use matchmaking_function_grp.DataObjects.{Ticket, BackfillTicket}

-- The last ticket and the backfill ticket that stands as far back, if the queue is that long.
abbrev pub last_pair : List BackfillTicket → List Ticket → Option (BackfillTicket × Ticket)
last_pair [] ts = none
last_pair (b ∷ bs) [] = none
last_pair (b ∷ bs) (t ∷ []) = some (b, t)
last_pair (b ∷ bs) (t ∷ u ∷ ts) = last_pair bs (u ∷ ts)

-- `b` and the last ticket `t` stand behind as many others.
pub record Meets (bs : List BackfillTicket) (ts : List Ticket) (b : BackfillTicket) (t : Ticket)
    : Type 0 where
  pub passed : List BackfillTicket
  pub served : List Ticket
  pub behind : List BackfillTicket
  pub backfill_tickets : bs ≡ passed ++ b ∷ behind
  pub tickets : ts ≡ served ++ t ∷ []
  pub level : length passed ≡ length served
  pub dropped : drop (length ts) bs ≡ behind

pub last_pair-Meets :
    (bs : List BackfillTicket) (ts : List Ticket) (b : BackfillTicket) (t : Ticket)
    → last_pair bs ts ≡ some (b, t)
    → Meets bs ts b t
last_pair-Meets [] ts b t h = cc
last_pair-Meets (c ∷ bs) [] b t h = cc
last_pair-Meets (c ∷ bs) (u ∷ []) b t h =
    let e = some_injective h in
    record {
      passed = [];
      served = [];
      behind = bs;
      backfill_tickets = ap (λ (p : BackfillTicket × Ticket). p.0 ∷ bs) e;
      tickets = ap (λ (p : BackfillTicket × Ticket). p.1 ∷ []) e;
      level = refl;
      dropped = refl;
    }
last_pair-Meets (c ∷ bs) (u ∷ v ∷ ts) b t h =
    let m = last_pair-Meets bs (v ∷ ts) b t h in
    record {
      passed = c ∷ m.passed;
      served = u ∷ m.served;
      behind = m.behind;
      backfill_tickets = ap (◌∷◌ c) m.backfill_tickets;
      tickets = ap (◌∷◌ u) m.tickets;
      level = ap suc m.level;
      dropped = m.dropped;
    }

-- There are more tickets.
pub record Exceeds (bs : List BackfillTicket) (ts : List Ticket) : Type 0 where
  pub served : List Ticket
  pub next : Ticket
  pub more : List Ticket
  pub tickets : ts ≡ served ++ next ∷ more
  pub level : length bs ≡ length served
  pub dropped : drop (length bs) ts ≡ next ∷ more

pub last_pair-Exceeds :
    (bs : List BackfillTicket) (t : Ticket) (ts : List Ticket)
    → last_pair bs (t ∷ ts) ≡ none
    → Exceeds bs (t ∷ ts)
last_pair-Exceeds [] t ts h = record {
  served = [];
  next = t;
  more = ts;
  tickets = refl;
  level = refl;
  dropped = refl;
}
last_pair-Exceeds (b ∷ bs) t [] h = cc
last_pair-Exceeds (b ∷ bs) t (u ∷ ts) h =
    let e = last_pair-Exceeds bs u ts h in
    record {
      served = t ∷ e.served;
      next = e.next;
      more = e.more;
      tickets = ap (◌∷◌ t) e.tickets;
      level = ap suc e.level;
      dropped = e.dropped;
    }

pub Meets-length :
    (bs : List BackfillTicket) (ts : List Ticket) (b : BackfillTicket) (t : Ticket)
    → (m : Meets bs ts b t) → length bs ≡ length ts + length m.behind
Meets-length bs ts b t m =
    let p = ap length m.backfill_tickets ∙ length-append m.passed (b ∷ m.behind) in
    let q = ap length m.tickets ∙ length-append m.served (t ∷ []) in omega (arith, p, q, m.level)
