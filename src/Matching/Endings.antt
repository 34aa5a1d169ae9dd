-- ===== src/Matching/Endings.antt =====
-- How a call of `buildMatch` ends, for all bounds, negative ones and 0 included.
use matchmaking_function_grp.Prelude.{
  ℕ, zero, suc, ℤ, pos, negsuc, ltb_ℤ, ◌≤◌, ◌<◌, ◌≡◌, refl, String, Bool, not, ◌&&◌, true, false,
  List, [], ◌∷◌, ◌++◌, length, take, drop, length-drop, take-append-drop, copy-replicate, arith,
  ◌⊎◌, inl, inr, Bool-cases, if◌then◌else◌,
}
use mathlib.Core.List.{append_assoc}
use matchmaking_function_grp.External.{Pie}
use matchmaking_function_grp.Outcome.{
  Run, Ending, returns, panics, running, return, fail, send, make_len_out_of_range,
}
use matchmaking_function_grp.DataObjects.{Ticket, zero_ticket, Match}
use matchmaking_function_grp.Rules.{GameRules}
use matchmaking_function_grp.Matching.Defs.{
  player_bounds, build_loop, build_match, one_match, new_match,
}
use matchmaking_function_grp.Matching.Groups.{matched, all_players, players_of-take}

-- The number of tickets of the next match when `waiting` tickets wait.
abbrev pub next_size : ℤ → ℤ → ℕ → ℤ
next_size low high waiting = if ltb_ℤ (pos waiting) high then low else high

sign : (z : ℤ) → ((k : ℕ) × (z ≡ negsuc k)) ⊎ ((z ≡ pos 0) ⊎ ((n : ℕ) × (z ≡ pos (suc n))))
sign (negsuc k) = inl (k, refl)
sign (pos zero) = inr (inl refl)
sign (pos (suc n)) = inr (inr (n, refl))

not-if : {A : Type 0} (b : Bool) (x y : A) → (if not b then y else x) ≡ (if b then x else y)
not-if b x y = ground arith

size_fits :
    (low high : ℤ) (waiting n : ℕ)
    → ltb_ℤ (pos waiting) low ≡ false
    → next_size low high waiting ≡ pos n
    → n ≤ waiting
size_fits (pos a) (pos b) waiting n many size = ground arith
size_fits (pos a) (negsuc b) waiting n many size = ground arith
size_fits (negsuc a) (pos b) waiting n many size = ground arith
size_fits (negsuc a) (negsuc b) waiting n many size = ground arith

module _ (pie : Pie) (uuid : ℕ → String) (auto_backfill : Bool) (low high : ℤ) where
  -- With the tickets `rest` in the queue the loop returns, panics or goes on for ever.
  pub data Stops (rest : List Ticket) (ending : Ending (List Ticket × ℕ)) : Type 0 where
    too_few :
        (count : ℕ)
        → ltb_ℤ (pos (length rest)) low ≡ true
        → ending ≡ returns (rest, count)
        → Stops rest ending
    negative_size :
        (k : ℕ)
        → ltb_ℤ (pos (length rest)) low ≡ false
        → next_size low high (length rest) ≡ negsuc k
        → ending ≡ panics make_len_out_of_range
        → Stops rest ending
    endless :
        ltb_ℤ (pos (length rest)) low ≡ false
        → next_size low high (length rest) ≡ pos 0
        → ((fuel count : ℕ)
            → (build_loop pie uuid auto_backfill low high fuel count rest).ending ≡ running)
        → ending ≡ running
        → Stops rest ending

  -- The matches sent take the queue in its order down to `rest`, where the loop stops.
  pub record Ends (queue : List Ticket) (run : Run Match (List Ticket × ℕ)) : Type 0 where
    pub rest : List Ticket
    pub in_order : matched run.sent ++ rest ≡ queue
    pub stops : Stops rest run.ending

  one_match_lem :
      (count n : ℕ) (backfill : Bool) (queue : List Ticket) (next : ℕ → Run Match (List Ticket × ℕ))
      → n ≤ length queue
      → one_match pie uuid count backfill (pos n) queue next
        ≡ send (new_match pie uuid count backfill n queue (all_players (take n queue))) (next n)
  unfolding one_match
  one_match_lem count n backfill queue next fits = ground (arith, players_of-take n queue)

  round :
      (fuel count n : ℕ) (queue : List Ticket)
      → ltb_ℤ (pos (length queue)) low ≡ false
      → next_size low high (length queue) ≡ pos n
      → n ≤ length queue
      → (found : Match) × (found.tickets ≡ take n queue)
        × (build_loop pie uuid auto_backfill low high (suc fuel) count queue
            ≡ send found
                (build_loop pie uuid auto_backfill low high fuel (suc count) (drop n queue)))
  unfolding build_loop
  round fuel count n queue many size fits = (
    new_match pie uuid count (auto_backfill && ltb_ℤ (pos n) high) n queue
        (all_players (take n queue)),
    (unfold new_match in copy-replicate n zero_ticket queue fits),
    rw (many, not-if (ltb_ℤ (pos (length queue)) high) low high, size)
        (one_match_lem count n _ queue
          (λ k. build_loop pie uuid auto_backfill low high fuel (suc count) (drop k queue)) fits),
  )

  returning :
      (fuel count : ℕ) (queue : List Ticket)
      → ltb_ℤ (pos (length queue)) low ≡ true
      → build_loop pie uuid auto_backfill low high (suc fuel) count queue ≡ return (queue, count)
  unfolding build_loop
  returning fuel count queue few = rw few refl

  failing :
      (fuel count k : ℕ) (queue : List Ticket)
      → ltb_ℤ (pos (length queue)) low ≡ false
      → next_size low high (length queue) ≡ negsuc k
      → build_loop pie uuid auto_backfill low high (suc fuel) count queue
        ≡ fail make_len_out_of_range
  unfolding build_loop one_match
  failing fuel count k queue many size =
      rw (many, not-if (ltb_ℤ (pos (length queue)) high) low high, size) refl

  spinning :
      (queue : List Ticket)
      → ltb_ℤ (pos (length queue)) low ≡ false
      → next_size low high (length queue) ≡ pos 0
      → (fuel count : ℕ)
      → ((build_loop pie uuid auto_backfill low high fuel count queue).ending ≡ running)
        × (matched (build_loop pie uuid auto_backfill low high fuel count queue).sent ≡ [])
  spinning queue many size zero count = unfold build_loop in (refl, refl)
  spinning queue many size (suc fuel) count =
      let (found, none_taken, e) = round fuel count 0 queue many size (omega arith) in
      let (still, nothing) = spinning queue many size fuel (suc count) in
      rw e (still, rw (none_taken, nothing) refl)

  after_round :
      (n : ℕ) (queue : List Ticket) (found : Match) (run : Run Match (List Ticket × ℕ))
      → found.tickets ≡ take n queue
      → Ends (drop n queue) run
      → Ends queue (send found run)
  after_round n queue found run taken e = record {
    rest = e.rest;
    in_order = rw (taken, append_assoc, e.in_order) (take-append-drop n queue);
    stops = e.stops;
  }

  build_loop-Ends :
      (fuel count : ℕ) (queue : List Ticket)
      → length queue < fuel
      → Ends queue (build_loop pie uuid auto_backfill low high fuel count queue)
  build_loop-Ends zero count queue h = elim h [ ]
  build_loop-Ends (suc fuel) count queue h = elim (Bool-cases (ltb_ℤ (pos (length queue)) low)) [
    | inl few ↦
        rw (returning fuel count queue few)
          (record { rest = queue; in_order = refl; stops = too_few count few refl })
    | inr many ↦ elim (sign (next_size low high (length queue))) [
      | inl (k, size) ↦
          rw (failing fuel count k queue many size)
            (record { rest = queue; in_order = refl; stops = negative_size k many size refl })
      | inr (inl size) ↦
          let (still, nothing) = spinning queue many size (suc fuel) count in
          record {
            rest = queue;
            in_order = rw nothing refl;
            stops =
                endless many size (λ fuel' count'. (spinning queue many size fuel' count').0) still;
          }
      | inr (inr (n, size)) ↦
          let fits = size_fits low high (length queue) (suc n) many size in
          let (found, taken, e) = round fuel count (suc n) queue many size fits in
          rw e (
            after_round (suc n) queue found _ taken (
              build_loop-Ends fuel (suc count) (drop (suc n) queue)
                (omega (arith, length-drop (suc n) queue))))
    ]
  ]

-- For any rules, negative numbers included, any ticket and any queue: `buildMatch` sends
-- matches whose tickets are, in order, the first ones of the queue and the new ticket; of the
-- others it then returns, if they are fewer than the minimum, all; it panics in `make`, if they
-- are not and the bound that sets the size of the next match is negative; and it never ends,
-- whatever number of rounds it makes, if that bound is 0. It never reads past the end of the
-- queue.
pub build_match-Ends :
    (pie : Pie) (uuid : ℕ → String) (rule : GameRules) (count : ℕ) (ticket : Ticket)
    (unmatched : List Ticket)
    → Ends pie uuid rule.auto_backfill
        (player_bounds rule).0
        (player_bounds rule).1
        (unmatched ++ ticket ∷ [])
        (build_match pie uuid rule count ticket unmatched)
unfolding build_match
build_match-Ends pie uuid rule count ticket unmatched =
    build_loop-Ends pie uuid rule.auto_backfill (player_bounds rule).0 (player_bounds rule).1 _
      count (unmatched ++ ticket ∷ []) (omega arith)
