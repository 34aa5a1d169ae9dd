-- ===== src/Service/MatchStream/Process.antt =====
-- The worker of `MakeMatches` is the goroutine that Matching describes.
use matchmaking_function_grp.Prelude.{
  some_injective, ℕ, ◌<◌, ◌≡◌, refl, ap, sym, subst, ◌∙◌, String, Bool, List, [], ◌∷◌, ◌++◌, map,
  length, All,
}
use matchmaking_function_grp.External.{Pie, Protobuf}
use matchmaking_function_grp.Outcome.{returns, Run, map_run, map_run-and_then, map_ending-returns}
use matchmaking_function_grp.DataObjects.{Ticket, Match}
use matchmaking_function_grp.Rules.{GameRules}
use matchmaking_function_grp.Matching.{
  Event, ticket_received, Phase, waiting, build_match, match_loop, make_matches, matched,
}
use matchmaking_function_grp.Matching.Limits.{
  Numbers, rules_of, Fits, IsOrdered, min_players, max_players,
}
use matchmaking_function_grp.Matching.Stream.{
  Groups, IsGroup, received, phase_after, make_matches-Groups,
}
use matchmaking_function_grp.Pipeline.{process}
use matchmaking_function_grp.Service.MatchStream.Defs.{match_code}

abbrev arrivals : List Ticket → List Event
arrivals ts = map ticket_received ts

abbrev as_waiting : List Ticket × ℕ → Phase
as_waiting (queue, count) = waiting queue count

module _ (pie : Pie) (pb : Protobuf) (uuid : ℕ → String) (rule : GameRules) where
  match_loop-process :
      (ts : List Ticket) (queue : List Ticket) (count : ℕ)
      → match_loop pie uuid rule count queue (arrivals ts)
        ≡ map_run as_waiting (process (match_code pie pb uuid rule) (queue, count) ts)
  unfolding match_loop
  match_loop-process [] queue count = refl
  match_loop-process (t ∷ ts) queue count =
      map_run-and_then as_waiting
        (λ (s : List Ticket × ℕ). process (match_code pie pb uuid rule) s ts)
        (λ (s : List Ticket × ℕ). match_loop pie uuid rule s.1 s.0 (arrivals ts))
        (λ s. match_loop-process ts s.0 s.1) (build_match pie uuid rule count t queue)

received-arrivals : (ts : List Ticket) → received (arrivals ts) ≡ ts
received-arrivals [] = refl
received-arrivals (t ∷ ts) = ap (◌∷◌ t) (received-arrivals ts)

phase_after-arrivals :
    (ts : List Ticket) (rest : List Ticket) (count : ℕ)
    → phase_after (arrivals ts) rest count ≡ waiting rest count
phase_after-arrivals [] rest count = refl
phase_after-arrivals (t ∷ ts) rest count = phase_after-arrivals ts rest count

waiting_injective : {q r : List Ticket} {c d : ℕ} → waiting q c ≡ waiting r d → q ≡ r
waiting_injective h = cc

-- What the worker alone makes of some tickets.
pub record Made (n : Numbers) (auto : Bool) (ts : List Ticket) (run : Run Match (List Ticket × ℕ))
    : Type 0 where
  pub rest : List Ticket
  pub count : ℕ
  pub returned : run.ending ≡ returns (rest, count)
  pub in_order : matched run.sent ++ rest ≡ ts
  pub too_few : length rest < min_players n
  pub groups : All (IsGroup auto (min_players n) (max_players n)) run.sent

module _ (pie : Pie) (pb : Protobuf) (uuid : ℕ → String) (n : Numbers) (auto : Bool) (fits : Fits n)
    (ordered : IsOrdered n) (positive : 0 < min_players n) where
  pub process-Made :
      (ts : List Ticket)
      → Made n auto ts (process (match_code pie pb uuid (rules_of n auto)) ([], 0) ts)
  unfolding make_matches
  process-Made ts =
      let (run, made, g) =
        make_matches-Groups pie uuid n auto 0 (arrivals ts) fits ordered positive in
      let same : map_run as_waiting (process (match_code pie pb uuid (rules_of n auto)) ([], 0) ts)
          ≡ run =
        sym (match_loop-process pie pb uuid (rules_of n auto) ts [] 0) ∙ some_injective made in
      let p = process (match_code pie pb uuid (rules_of n auto)) ([], 0) ts in
      let g' =
        subst (Groups (rules_of n auto) (min_players n) (max_players n) 0 [] (arrivals ts))
          (sym same) g in
      let ((rest, count), e, w) =
        map_ending-returns as_waiting p.ending
          (g'.returned ∙ ap returns (phase_after-arrivals ts g'.rest _)) in
      let left : rest ≡ g'.rest = waiting_injective w in
      record {
        rest = rest;
        count = count;
        returned = e;
        in_order = ap (λ q. matched p.sent ++ q) left ∙ (g'.in_order ∙ received-arrivals ts);
        too_few = rw left g'.too_few;
        groups = g'.groups;
      }
