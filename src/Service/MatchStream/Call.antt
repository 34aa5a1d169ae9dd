-- ===== src/Service/MatchStream/Call.antt =====
-- A whole call of `MakeMatches`, with the `MatchMaker` that main.go takes.
use matchmaking_function_grp.Prelude.{
  ℕ, ◌<◌, ◌≡◌, refl, ap, sym, subst, ◌↔◌, ◌∙◌, String, Bool, some, List, [], ◌∷◌, map, length,
}
use matchmaking_function_grp.External.{Pie, Protobuf}
use matchmaking_function_grp.Outcome.{Result, ok}
use matchmaking_function_grp.DataObjects.{Ticket, Match}
use matchmaking_function_grp.Rules.{GameRules, game_rules, rules_from_json}
use matchmaking_function_grp.Proto
use matchmaking_function_grp.Proto.{MakeMatchesRequest, MatchResponse}
use matchmaking_function_grp.Convert.{proto_ticket_to_matchfunction_ticket}
use matchmaking_function_grp.Matching.Limits.{Numbers, rules_of, Fits, IsOrdered, min_players}
use matchmaking_function_grp.Matching.Stream.{received}
use matchmaking_function_grp.Parties.{PartyMap}
use matchmaking_function_grp.Logic.{match_maker}
use matchmaking_function_grp.Pipeline.{
  Received, message, eof, recv_error, Handler, Steps, start, inputs,
}
use matchmaking_function_grp.Pipeline.Standing.{HasFailed}
use matchmaking_function_grp.Pipeline.Refinement.{IsDone}
use matchmaking_function_grp.Pipeline.Progress.{Closes, Steps-trans}
use matchmaking_function_grp.Service.Streams.{receive_tickets, start_make_matches}
use matchmaking_function_grp.Service.Matches.{
  received-receive_tickets, sends, converted, IsChecked-IsOrdered,
}
use matchmaking_function_grp.Service.Call.{
  Call, waiting, running_with, run_rules, run_with, run_with-runs, dereference-ok,
}
use matchmaking_function_grp.Rules.Checks.{IsChecked, rules_from_json-ok}
use matchmaking_function_grp.Service.MatchStream.Defs.{
  read_match_request, match_response, match_code, make_matches_returned,
}
use matchmaking_function_grp.Service.MatchStream.Responses.{
  AreGroups, match_stream-done, match_stream-Ends,
}

module _ (pie : Pie) (pb : Protobuf) (order : PartyMap → PartyMap) (uuid : ℕ → String)
    (unmarshal : String → Result GameRules) where
  abbrev Request : Type 0
  Request = MakeMatchesRequest pb.Struct pb.Timestamp

  abbrev Response : Type 0
  Response = MatchResponse pb.Struct pb.Timestamp

  abbrev MatchCall : Type 0
  MatchCall = Call Request Ticket Match Response (List Ticket × ℕ)

  unfoldable pub handle_make_matches : List (Received Request) → MatchCall
  handle_make_matches [] = waiting
  handle_make_matches (first ∷ stream) =
      run_with (start_make_matches pb (match_maker pie order uuid unmarshal) first)
        (λ rule. start (match_code pie pb uuid rule) ([], 0) stream)

  -- The reader hands over what `receive_tickets` lists.
  inputs-receive_tickets :
      (rule : GameRules) (stream : List (Received Request))
      → inputs (match_code pie pb uuid rule) stream
        ≡ received (receive_tickets pie pb stream).events
  unfolding read_match_request receive_tickets
  inputs-receive_tickets rule [] = refl
  inputs-receive_tickets rule (eof ∷ rest) = refl
  inputs-receive_tickets rule (recv_error e ∷ rest) = refl
  inputs-receive_tickets rule (message (MakeMatchesRequest.parameters p) ∷ rest) = refl
  inputs-receive_tickets rule (message MakeMatchesRequest.unset ∷ rest) = refl
  inputs-receive_tickets rule (message (MakeMatchesRequest.ticket t) ∷ rest) =
      ap (◌∷◌ (proto_ticket_to_matchfunction_ticket pie pb t)) (inputs-receive_tickets rule rest)

  inputs-sends :
      (rule : GameRules) (tickets : List (Proto.Ticket pb.Struct pb.Timestamp))
      → inputs (match_code pie pb uuid rule) (sends pie pb tickets (eof ∷ []))
        ≡ converted pie pb tickets
  inputs-sends rule tickets =
      inputs-receive_tickets rule (sends pie pb tickets (eof ∷ []))
      ∙ received-receive_tickets pie pb tickets

  -- The first message, with rules as text.
  abbrev pub brings : String → Received Request
  brings text =
      message (MakeMatchesRequest.parameters (record { rules = some (record { json = text }) }))

  -- A first message that brings the rules.
  Brings : GameRules → Received Request → Type 0
  Brings rule first =
      (text : String) × (first ≡ brings text)
      × (rules_from_json unmarshal text ≡ ok (game_rules rule))

  started-Brings :
      (first : Received Request) (rule : GameRules)
      → start_make_matches pb (match_maker pie order uuid unmarshal) first ≡ ok (game_rules rule)
      → Brings rule first
  unfolding start_make_matches match_maker Brings
  started-Brings eof rule h = cc
  started-Brings (recv_error e) rule h = cc
  started-Brings (message (MakeMatchesRequest.parameters p)) rule h =
      let (r, some_rules, read) = dereference-ok p.rules _ h in
      (
        r.json,
        ap (λ o. message (MakeMatchesRequest.parameters (record { rules = o }))) some_rules,
        read,
      )
  started-Brings (message (MakeMatchesRequest.ticket t)) rule h = cc
  started-Brings (message MakeMatchesRequest.unset) rule h = cc

  -- Once the first message has come, a call of `MakeMatches` runs its goroutines with some
  -- rules exactly if the message brings a text from which `json.Unmarshal` reads these rules
  -- and none of the three minimums in them is above its maximum; and they begin with an empty
  -- queue and the rest of the stream.
  pub handle_make_matches-runs :
      (first : Received Request) (stream : List (Received Request)) (rule : GameRules)
      (s : Handler Request Ticket Match Response (List Ticket × ℕ))
      → (handle_make_matches (first ∷ stream) ≡ running_with rule s) ↔ (
          (text : String) × (first ≡ brings text)
          × (unmarshal text ≡ ok rule)
          × IsChecked rule
          × (s ≡ start (match_code pie pb uuid rule) ([], 0) stream))
  unfolding handle_make_matches start_make_matches match_maker run_with run_rules Brings
  handle_make_matches-runs first stream rule s = (
    λ h.
        let (started, same) = run_with-runs _ _ rule s h in
        let (text, e, read) = started-Brings first rule started in
        let (rule', read', same_rule, checked) =
          (rules_from_json-ok unmarshal text (game_rules rule)).0 read in
        let eq : rule ≡ rule' = cc in
        (text, e, read' ∙ ap ok (sym eq), subst IsChecked (sym eq) checked, same),
    λ (text, e, read, checked, same).
        rw (e, (rules_from_json-ok unmarshal text (game_rules rule)).1 (rule, read, refl, checked))
          (ap (running_with rule) (sym same)),
  )

  runs_with :
      (n : Numbers) (auto : Bool) (text : String) (stream : List (Received Request))
      (rule : GameRules) (s : Handler Request Ticket Match Response (List Ticket × ℕ))
      → unmarshal text ≡ ok (rules_of n auto)
      → handle_make_matches (brings text ∷ stream) ≡ running_with rule s
      → IsOrdered n × (s ≡ start (match_code pie pb uuid (rules_of n auto)) ([], 0) stream)
  runs_with n auto text stream rule s read call =
      let (text', e, read', checked, same) =
        (handle_make_matches-runs (brings text) stream rule s).0 call in
      let same_text : text ≡ text' = cc in
      let eq : rule ≡ rules_of n auto = cc in
      (
        IsChecked-IsOrdered n auto (subst IsChecked eq checked),
        same ∙ ap (λ x. start (match_code pie pb uuid x) ([], 0) stream) eq,
      )

  -- A client sends rules that `json.Unmarshal` reads, in which no number is negative, whose
  -- products fit into an `int` and whose minimum of players is positive, then tickets, and
  -- closes its side. If the call of `MakeMatches` then runs its goroutines, and after any steps
  -- of them it returns and no response has failed to be sent, then the responses are those of
  -- matches in groups of the minimum, whose tickets, followed by fewer than the minimum, are
  -- all the tickets of the client, in order, whatever their players.
  pub handle_make_matches_lem :
      (n : Numbers) (auto : Bool) (text : String)
      (tickets : List (Proto.Ticket pb.Struct pb.Timestamp)) (rule : GameRules)
      (s : Handler Request Ticket Match Response (List Ticket × ℕ)) (k : ℕ)
      (t : Handler Request Ticket Match Response (List Ticket × ℕ))
      → unmarshal text ≡ ok (rules_of n auto)
      → Fits n
      → 0 < min_players n
      → handle_make_matches (brings text ∷ sends pie pb tickets (eof ∷ [])) ≡ running_with rule s
      → Steps (match_code pie pb uuid (rules_of n auto)) s k t
      → make_matches_returned t ≡ some (ok tt)
      → (¬ HasFailed t.sender)
      → (matches : List Match) × (rest : List Ticket) × (t.sent
          ≡ map (match_response pie pb) matches)
        × AreGroups n auto (converted pie pb tickets) matches rest
        × (length rest < min_players n)
  handle_make_matches_lem n auto text tickets rule s k t read fits positive call path back well =
      let stream = sends pie pb tickets (eof ∷ []) in
      let code = match_code pie pb uuid (rules_of n auto) in
      let (ordered, started) = runs_with n auto text stream rule s read call in
      let (matches, rest, sent, groups, few) =
        match_stream-done pie pb uuid n auto fits ordered positive stream k t
          (subst (λ x. Steps code x k t) started path) back well in
      (
        matches,
        rest,
        sent,
        subst (λ ts. AreGroups n auto ts matches rest) (inputs-sends (rules_of n auto) tickets)
            groups,
        few,
      )

  Closes-sends :
      (rule : GameRules) (tickets : List (Proto.Ticket pb.Struct pb.Timestamp))
      → Closes (match_code pie pb uuid rule) (sends pie pb tickets (eof ∷ []))
  unfolding read_match_request
  Closes-sends rule [] = tt
  Closes-sends rule (t ∷ ts) = Closes-sends rule ts

  waited-IsDone :
      (rule : GameRules) {u : Handler Request Ticket Match Response (List Ticket × ℕ)}
      → IsDone (match_code pie pb uuid rule) u
      → make_matches_returned u ≡ some (ok tt)
  unfolding make_matches_returned
  waited-IsDone rule done = rw (done.reader_done, done.sender_done)

  -- A client sends rules that `json.Unmarshal` reads, in which no number is negative, whose
  -- products fit into an `int` and whose minimum of players is positive, then tickets, and
  -- closes its side. If the call of `MakeMatches` then runs its goroutines, then from whatever
  -- these have got to, with no response that has failed to be sent, some steps lead to its
  -- return, with responses of matches in groups of the minimum, whose tickets, followed by
  -- fewer than the minimum, are all the tickets of the client, in order, whatever their
  -- players.
  pub handle_make_matches-returns :
      (n : Numbers) (auto : Bool) (text : String)
      (tickets : List (Proto.Ticket pb.Struct pb.Timestamp)) (rule : GameRules)
      (s : Handler Request Ticket Match Response (List Ticket × ℕ)) (k : ℕ)
      (t : Handler Request Ticket Match Response (List Ticket × ℕ))
      → unmarshal text ≡ ok (rules_of n auto)
      → Fits n
      → 0 < min_players n
      → handle_make_matches (brings text ∷ sends pie pb tickets (eof ∷ [])) ≡ running_with rule s
      → Steps (match_code pie pb uuid (rules_of n auto)) s k t
      → (¬ HasFailed t.sender)
      → (j : ℕ) × (u : Handler Request Ticket Match Response (List Ticket × ℕ)) × Steps
          (match_code pie pb uuid (rules_of n auto))
          t
          j
          u
        × (make_matches_returned u ≡ some (ok tt))
        × (matches : List Match) × (rest : List Ticket) × (u.sent
            ≡ map (match_response pie pb) matches)
        × AreGroups n auto (converted pie pb tickets) matches rest
        × (length rest < min_players n)
  handle_make_matches-returns n auto text tickets rule s k t read fits positive call path well =
      let stream = sends pie pb tickets (eof ∷ []) in
      let code = match_code pie pb uuid (rules_of n auto) in
      let (ordered, started) = runs_with n auto text stream rule s read call in
      let end =
        match_stream-Ends pie pb uuid n auto fits ordered positive stream k t
          (subst (λ x. Steps code x k t) started path) (Closes-sends (rules_of n auto) tickets)
          well in
      let (m, whole) = Steps-trans code path end.path in
      let back = waited-IsDone (rules_of n auto) end.done in
      let (matches, rest, sent, groups, few) =
        handle_make_matches_lem n auto text tickets rule s m end.last read fits positive call whole
          back (λ h. subst HasFailed end.done.sender_done h) in
      (end.steps, end.last, end.path, back, matches, rest, sent, groups, few)
