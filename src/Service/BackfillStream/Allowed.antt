-- ===== src/Service/BackfillStream/Allowed.antt =====
-- No proposal of the worker of `BackfillMatches` adds a ticket to a session that it excludes.
use matchmaking_function_grp.Prelude.{
  ℕ, ◌≡◌, refl, String, none, some, List, [], ◌∷◌, All, All-append,
}
use matchmaking_function_grp.External.{Pie, Protobuf}
use matchmaking_function_grp.Outcome.{Ending, returns, panics, running, Run, and_then}
use matchmaking_function_grp.DataObjects.{BackfillProposal}
use matchmaking_function_grp.Proto.{BackfillMakeMatchesRequest, BackfillResponse}
use matchmaking_function_grp.Parties.{PartyMap}
use matchmaking_function_grp.Backfill.{Queues}
use matchmaking_function_grp.Backfill.Allowed.{IsAllowed, build_backfill_match-IsAllowed}
use matchmaking_function_grp.Pipeline.{Code, process}
use matchmaking_function_grp.Service.BackfillStream.Defs.{
  Input, match_ticket, backfill_ticket, backfill_input, backfill_code,
}

all_and_then :
    {A B C : Type 0} (P : B → Type 0) (r : Run B A) (next : A → Run B C)
    → All P r.sent
    → ((a : A) → All P (next a).sent)
    → All P (and_then r next).sent
all_and_then {A = A} P r next h more = by_ending r.ending refl
  where
    by_ending : (e : Ending A) → r.ending ≡ e → All P (and_then r next).sent
    by_ending (returns a) g = rw g (All-append P r.sent (next a).sent h (more a))
    by_ending (panics p) g = rw g h
    by_ending running g = rw g h

module _ (pie : Pie) (pb : Protobuf) (order : PartyMap → PartyMap) (uuid : ℕ → String) where
  abbrev Request : Type 0
  Request = BackfillMakeMatchesRequest pb.Struct pb.Timestamp

  abbrev Response : Type 0
  Response = BackfillResponse pb.Struct pb.Timestamp

  abbrev code : Code Request Input BackfillProposal Response Queues
  code = backfill_code pie pb order uuid

  input-IsAllowed :
      (q : Queues) (i : Input) → All IsAllowed (backfill_input pie order uuid q i).sent
  unfolding backfill_input
  input-IsAllowed (ts, bs, count) (match_ticket t) =
      build_backfill_match-IsAllowed pie order uuid count (some t) none ts bs
  input-IsAllowed (ts, bs, count) (backfill_ticket b) =
      build_backfill_match-IsAllowed pie order uuid count none (some b) ts bs

  pub process-IsAllowed : (q : Queues) (is : List Input) → All IsAllowed (process code q is).sent
  process-IsAllowed q [] = tt
  process-IsAllowed q (i ∷ is) =
      all_and_then IsAllowed (backfill_input pie order uuid q i) (λ q'. process code q' is)
        (input-IsAllowed q i) (λ q'. process-IsAllowed q' is)
