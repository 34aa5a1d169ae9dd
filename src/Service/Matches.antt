-- ===== src/Service/Matches.antt =====
-- From the first message of a `MakeMatches` stream to the matches.
use matchmaking_function_grp.Prelude.{
  ℕ, ◌≡◌, refl, ap, sym, ◌∙◌, subst, ◌<◌, String, Bool, true, false, some, List, [], ◌∷◌, map,
  arith,
}
use matchmaking_function_grp.External.{Pie, Protobuf}
use matchmaking_function_grp.Outcome.{Result, ok, Run}
use matchmaking_function_grp.DataObjects.{Ticket, Match}
use matchmaking_function_grp.Rules.{GameRules, RuleSet, game_rules, rules_from_json}
use matchmaking_function_grp.Rules.Checks.{IsChecked, rules_from_json-ok}
use matchmaking_function_grp.Proto
use matchmaking_function_grp.Proto.{MakeMatchesRequest}
use matchmaking_function_grp.Convert.{proto_ticket_to_matchfunction_ticket}
use matchmaking_function_grp.Matching.{Phase}
use matchmaking_function_grp.Matching.Limits.{
  Numbers, rules_of, Fits, IsOrdered, min_players, max_players,
}
use matchmaking_function_grp.Matching.Stream.{Groups, received, make_matches-Groups}
use matchmaking_function_grp.Parties.{PartyMap}
use matchmaking_function_grp.Logic.{match_maker}
use matchmaking_function_grp.Pipeline.{Received, message, eof}
use matchmaking_function_grp.Service.Streams.{receive_tickets, start_make_matches}

module _ (pie : Pie) (pb : Protobuf) where
  open pb use {Struct, Timestamp}

  -- The client sends these tickets, and then `rest`.
  abbrev pub sends :
      List (Proto.Ticket Struct Timestamp)
      → List (Received (MakeMatchesRequest Struct Timestamp))
      → List (Received (MakeMatchesRequest Struct Timestamp))
  sends [] rest = rest
  sends (t ∷ ts) rest = message (MakeMatchesRequest.ticket t) ∷ sends ts rest

  abbrev pub converted : List (Proto.Ticket Struct Timestamp) → List Ticket
  converted ts = map (proto_ticket_to_matchfunction_ticket pie pb) ts

  pub received-receive_tickets :
      (ts : List (Proto.Ticket Struct Timestamp))
      → received (receive_tickets pie pb (sends ts (eof ∷ []))).events ≡ converted ts
  unfolding receive_tickets
  received-receive_tickets [] = refl
  received-receive_tickets (t ∷ ts) =
      ap (◌∷◌ (proto_ticket_to_matchfunction_ticket pie pb t)) (received-receive_tickets ts)

  -- The request is not the parameters once more, and it has a request type.
  abbrev pub is_ticket : MakeMatchesRequest Struct Timestamp → Bool
  is_ticket (MakeMatchesRequest.ticket t) = true
  is_ticket (MakeMatchesRequest.parameters p) = false
  is_ticket MakeMatchesRequest.unset = false

ok_injective : {A : Type 0} {a b : A} → ◌≡◌ {A = Result A} (ok a) (ok b) → a ≡ b
ok_injective h = cc

pub IsChecked-IsOrdered : (n : Numbers) (auto : Bool) → IsChecked (rules_of n auto) → IsOrdered n
IsChecked-IsOrdered n auto c = record {
  teams_ordered = omega (arith, c.teams_ordered);
  players_ordered = omega (arith, c.players_ordered);
  ships_ordered = omega (arith, c.ships_ordered);
}

module _ (pie : Pie) (pb : Protobuf) (order : PartyMap → PartyMap) (uuid : ℕ → String)
    (unmarshal : String → Result GameRules) where
  pub accepted :
      (n : Numbers) (auto : Bool) (text : String) (rules : RuleSet)
      → unmarshal text ≡ ok (rules_of n auto)
      → rules_from_json unmarshal text ≡ ok rules
      → (rules ≡ game_rules (rules_of n auto)) × IsOrdered n
  accepted n auto text rules read h =
      let (rule, read', same, checked) = (rules_from_json-ok unmarshal text rules).0 h in
      let e : rule ≡ rules_of n auto = ok_injective (sym read' ∙ read) in
      (same ∙ ap game_rules e, IsChecked-IsOrdered n auto (subst IsChecked e checked))

  -- Once the first message has brought rules that are accepted, have no negative number, fit
  -- into an `int` and have a positive minimum, the tickets that the client sends before it
  -- closes its side are all received, and `MakeMatches` of `MatchMaker` sends them in groups of
  -- the minimum, in their order, and leaves fewer than the minimum.
  pub make_matches_stream :
      (n : Numbers) (auto : Bool) (text : String) (rules : RuleSet) (count : ℕ)
      (tickets : List (Proto.Ticket pb.Struct pb.Timestamp))
      → unmarshal text ≡ ok (rules_of n auto)
      → start_make_matches pb (match_maker pie order uuid unmarshal) (
          message
            (MakeMatchesRequest.parameters (record { rules = some (record { json = text }) })))
        ≡ ok rules
      → Fits n
      → 0 < min_players n
      → let events = (receive_tickets pie pb (sends pie pb tickets (eof ∷ []))).events in
        (run : Run Match Phase) × ((match_maker pie order uuid unmarshal).make_matches_of count
            rules events
          ≡ some run)
        × Groups (rules_of n auto) (min_players n) (max_players n) count [] events run
        × (received events ≡ converted pie pb tickets)
  unfolding start_make_matches match_maker
  make_matches_stream n auto text rules count tickets read started f positive =
      let events = (receive_tickets pie pb (sends pie pb tickets (eof ∷ []))).events in
      let (same, ordered) = accepted n auto text rules read started in
      let (run, made, groups) =
        make_matches-Groups pie uuid n auto count events f ordered positive in
      (run, rw same made, groups, received-receive_tickets pie pb tickets)
