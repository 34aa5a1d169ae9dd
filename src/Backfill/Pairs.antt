-- ===== src/Backfill/Pairs.antt =====
-- Which proposals `buildBackfillMatch` sends.
use matchmaking_function_grp.Prelude.{
  ℕ, ◌+◌, Option, String, if◌then◌else◌, ◌≡◌, refl, false, inl, inr, Bool-cases, List, [], ◌∷◌,
  ◌++◌, map, suc, length, All, lt→ltb, arith,
}
use matchmaking_function_grp.Value.{Fields}
use matchmaking_function_grp.External.{Pie}
use matchmaking_function_grp.PlayerData.{to_id}
use matchmaking_function_grp.DataObjects.{Ticket, BackfillTicket, BackfillProposal}
use matchmaking_function_grp.Parties.{PartyMap, player_data_to_parties}
use matchmaking_function_grp.Matching.{generate_uuid}
use matchmaking_function_grp.Backfill.Walk.{build_backfill_match_loop}
use matchmaking_function_grp.Backfill.Rounds.{
  HasMap, kept, range_loop_skip, range_loop_last, range_loop_propose,
}
use matchmaking_function_grp.Backfill.Defs.{
  appended, build_backfill_match, is_excluded, new_attributes, new_proposal, range_loop,
}

-- The first ticket goes with the first backfill ticket, and so on; excluded pairs are left out.
abbrev pub allowed_pairs : List BackfillTicket → List Ticket → List (BackfillTicket × Ticket)
allowed_pairs [] tickets = []
allowed_pairs (b ∷ bs) [] = []
allowed_pairs (b ∷ bs) (t ∷ ts) =
    if is_excluded t b then allowed_pairs bs ts else (b, t) ∷ allowed_pairs bs ts

module _ (order : PartyMap → PartyMap) where
  -- A proposal that adds `ticket` to the session of `backfill_ticket`, as a team of its own.
  pub record IsProposal (pair : BackfillTicket × Ticket) (proposal : BackfillProposal)
      : Type 0 where
    pub session : proposal.match_session_id ≡ pair.0.match_session_id
    pub pool : proposal.match_pool ≡ pair.0.match_pool
    pub source : proposal.backfill_ticket_id ≡ pair.0.ticket_id
    pub added : proposal.added_tickets ≡ pair.1 ∷ []
    pub allowed : is_excluded pair.1 pair.0 ≡ false
    pub team_id : String
    pub teams :
        proposal.proposed_teams
        ≡ pair.0.partial_match.teams
          ++ record {
            user_ids = map to_id pair.1.players;
            parties = player_data_to_parties order pair.1.players;
            team_id = team_id;
          }
            ∷ []

  -- One proposal for each pair, in the order of the pairs.
  abbrev pub Proposes : List (BackfillTicket × Ticket) → List BackfillProposal → Type 0
  Proposes [] [] = Unit
  Proposes (pair ∷ pairs) (proposal ∷ proposals) =
      IsProposal pair proposal × Proposes pairs proposals
  Proposes pairs proposals = ⊥

allowed_pairs-nil : (bs : List BackfillTicket) → allowed_pairs bs [] ≡ []
allowed_pairs-nil [] = refl
allowed_pairs-nil (b ∷ bs) = refl

module _ (pie : Pie) (order : PartyMap → PartyMap) (uuid : ℕ → String) where
  new_proposal-IsProposal :
      (count : ℕ) (b : BackfillTicket) (t : Ticket) (fields : Fields)
      → is_excluded t b ≡ false
      → IsProposal order (b, t) (new_proposal pie order uuid count b fields t)
  unfolding new_proposal
  new_proposal-IsProposal count b t fields free = record {
    session = refl;
    pool = refl;
    source = refl;
    added = refl;
    allowed = free;
    team_id = generate_uuid uuid count;
    teams = rw pie.pie_map_lem;
  }

  range_loop-Proposes :
      (bs : List BackfillTicket) (ts : List Ticket) (count : ℕ) (seen : List BackfillTicket)
      → All HasMap bs
      → Proposes order (allowed_pairs bs ts) (range_loop pie order uuid count seen bs ts).sent
  range_loop-Proposes [] ts count seen h = unfold range_loop in tt
  range_loop-Proposes (b ∷ bs) [] count seen h = unfold range_loop in tt
  range_loop-Proposes (b ∷ bs) (t ∷ []) count seen ((fields, present), h) =
      elim (Bool-cases (is_excluded t b)) [
        | inl skipped ↦
            rw (skipped, range_loop_skip pie order uuid count seen b bs t [] skipped)
              (range_loop-Proposes bs [] count (seen ++ b ∷ []) h)
        | inr free ↦
            rw (free, range_loop_last pie order uuid count seen b bs t [] fields free present refl)
              (
                new_proposal-IsProposal count b t (new_attributes pie order uuid count fields) free,
                rw (allowed_pairs-nil bs) tt,
              )
      ]
  range_loop-Proposes (b ∷ bs) (t ∷ u ∷ ts) count seen ((fields, present), h) =
      elim (Bool-cases (is_excluded t b)) [
        | inl skipped ↦
            rw (skipped, range_loop_skip pie order uuid count seen b bs t (u ∷ ts) skipped)
              (range_loop-Proposes bs (u ∷ ts) count (seen ++ b ∷ []) h)
        | inr free ↦
            rw
              (
                free,
                range_loop_propose pie order uuid count seen b bs t (u ∷ ts) fields u ts free
                    present refl,
              )
              (
                new_proposal-IsProposal count b t (new_attributes pie order uuid count fields) free,
                range_loop-Proposes bs (u ∷ ts) (count + 3)
                    (seen ++ kept pie order uuid count seen b bs t (u ∷ ts) fields ∷ []) h,
              )
      ]

module _ (pie : Pie) (order : PartyMap → PartyMap) (uuid : ℕ → String) (count : ℕ)
    (nt : Option Ticket) (nb : Option BackfillTicket) (unmatched : List Ticket)
    (waiting : List BackfillTicket) where
  cases :
      (bs : List BackfillTicket) (ts : List Ticket)
      → appended waiting nb ≡ bs
      → appended unmatched nt ≡ ts
      → All HasMap bs
      → Proposes order
          (allowed_pairs bs ts)
          (build_backfill_match pie order uuid count nt nb unmatched waiting).sent
  cases [] ts f e h = unfold build_backfill_match in rw f tt
  cases (b ∷ bs) [] f e h =
      unfold build_backfill_match in rw (f, e, lt→ltb 0 (suc (length bs)) (omega arith)) tt
  cases (b ∷ bs) (t ∷ ts) f e h =
      rw
        (build_backfill_match_loop pie order uuid count nt nb unmatched waiting (t ∷ ts) (b ∷ bs) e
          f (lt→ltb _ _ (omega arith)) (lt→ltb _ _ (omega arith)))
        (range_loop-Proposes pie order uuid (b ∷ bs) (t ∷ ts) count [] h)

-- If every backfill ticket has an attribute map: a call of `buildBackfillMatch` pairs the
-- tickets with the backfill tickets, the first with the first and so on, and sends one proposal
-- for each pair that is not excluded, in order, and no other, also when it panics afterwards.
-- The proposal is for the session of the pair and adds its ticket, as a team behind those of
-- the partial match.
pub build_backfill_match-Proposes :
    (pie : Pie) (order : PartyMap → PartyMap) (uuid : ℕ → String) (count : ℕ)
    (new_ticket : Option Ticket) (new_backfill_ticket : Option BackfillTicket)
    (unmatched : List Ticket) (unmatched_backfill : List BackfillTicket)
    → All HasMap (appended unmatched_backfill new_backfill_ticket)
    → Proposes order
        (allowed_pairs
          (appended unmatched_backfill new_backfill_ticket)
          (appended unmatched new_ticket))
        (build_backfill_match pie order uuid count new_ticket new_backfill_ticket unmatched
          unmatched_backfill).sent
build_backfill_match-Proposes pie order uuid count nt nb unmatched waiting h =
    cases pie order uuid count nt nb unmatched waiting (appended waiting nb) (appended unmatched nt)
      refl refl h
