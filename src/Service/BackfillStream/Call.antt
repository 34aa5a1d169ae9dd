-- ===== src/Service/BackfillStream/Call.antt =====
-- A whole call of `BackfillMatches`, with the `MatchMaker` that main.go takes.
use matchmaking_function_grp.Prelude.{
  ℕ, ◌≡◌, refl, ap, sym, subst, ◌∙◌, ◌↔◌, String, true, Option, none, some, List, [], ◌∷◌, ◌++◌,
  map,
}
use matchmaking_function_grp.External.{Pie, Protobuf}
use matchmaking_function_grp.Outcome.{
  Result, ok, err, panic, Ending, returns, panics, running, Run, and_then,
}
use matchmaking_function_grp.DataObjects.{BackfillTicket, BackfillProposal}
use matchmaking_function_grp.Rules.{GameRules, RuleSet, game_rules, rules_from_json}
use matchmaking_function_grp.Rules.Checks.{IsChecked, rules_from_json-ok}
use matchmaking_function_grp.Proto.{BackfillMakeMatchesRequest, BackfillResponse}
use matchmaking_function_grp.Convert.{
  proto_ticket_to_matchfunction_ticket, proto_backfill_ticket_to_matchfunction_backfill_ticket,
}
use matchmaking_function_grp.Parties.{PartyMap}
use matchmaking_function_grp.Backfill.{Queues, build_backfill_match}
use matchmaking_function_grp.Backfill.Loop
use matchmaking_function_grp.Backfill.Loop.{Phase, backfill_loop, backfill_matches}
use matchmaking_function_grp.Logic.{MatchLogic, match_maker}
use matchmaking_function_grp.Pipeline.{
  Received, message, eof, recv_error, Code, Handler, start, inputs, read_input,
}
use matchmaking_function_grp.Service.Streams.{
  Feed, write_backfill, fetch_backfill_tickets, some_rules, start_backfill_matches,
}
use matchmaking_function_grp.Service.Call.{
  Call, waiting, returned, running_with, run_rules, run_with, run_with-runs, dereference-ok,
}
use matchmaking_function_grp.Service.BackfillStream.Defs.{
  Input, match_ticket, backfill_ticket, read_backfill_request, hand_backfill_ticket, backfill_code,
}
use matchmaking_function_grp.Service.BackfillStream.Responses.{as_event}

-- What is sent depends on what each continuation sends.
and_then-sent :
    {B A C : Type 0} (r : Run B A) (f g : A → Run B C)
    → ((a : A) → (f a).sent ≡ (g a).sent)
    → (and_then r f).sent ≡ (and_then r g).sent
and_then-sent {A = A} r f g same = by_ending r.ending refl
  where
    by_ending : (e : Ending A) → r.ending ≡ e → (and_then r f).sent ≡ (and_then r g).sent
    by_ending (returns a) h = rw h (ap (λ xs. r.sent ++ xs) (same a))
    by_ending (panics p) h = rw h refl
    by_ending running h = rw h refl

module _ (pie : Pie) (pb : Protobuf) (order : PartyMap → PartyMap) (uuid : ℕ → String) where
  abbrev Request : Type 0
  Request = BackfillMakeMatchesRequest pb.Struct pb.Timestamp

  abbrev Response : Type 0
  Response = BackfillResponse pb.Struct pb.Timestamp

  abbrev code : Code Request Input BackfillProposal Response Queues
  code = backfill_code pie pb order uuid

  abbrev sent_of : List Loop.Event → Queues → List BackfillProposal
  sent_of events queues = (backfill_loop pie order uuid events true true queues).sent

  next-sent :
      (i : Input) (events events' : List Loop.Event)
      → ((queues : Queues) → sent_of events queues ≡ sent_of events' queues)
      → (queues : Queues)
      → sent_of (as_event i ∷ events) queues ≡ sent_of (as_event i ∷ events') queues
  unfolding backfill_loop
  next-sent (match_ticket t) events events' same (ts, bs, count) =
      and_then-sent {C = Phase} (build_backfill_match pie order uuid count (some t) none ts bs)
        (backfill_loop pie order uuid events true true)
        (backfill_loop pie order uuid events' true true) same
  next-sent (backfill_ticket t) events events' same (ts, bs, count) =
      and_then-sent {C = Phase} (build_backfill_match pie order uuid count none (some t) ts bs)
        (backfill_loop pie order uuid events true true)
        (backfill_loop pie order uuid events' true true) same

  result-sent :
      (r : Result BackfillTicket) (feed : Feed Loop.Event) (is : List Input)
      → ((queues : Queues) → sent_of feed.events queues ≡ sent_of (map as_event is) queues)
      → (queues : Queues)
      → sent_of (write_backfill pie pb r feed).events queues
        ≡ sent_of (map as_event (read_input code (hand_backfill_ticket r) is)) queues
  result-sent (ok b) feed is same queues =
      next-sent (backfill_ticket b) feed.events (map as_event is) same queues
  result-sent (err e) feed is same queues = same queues
  result-sent (panic p) feed is same queues = refl

  -- The worker sends the same for the events that the reader lists.
  pub sent_of-fetch :
      (stream : List (Received Request)) (queues : Queues)
      → sent_of (fetch_backfill_tickets pie pb stream).events queues
        ≡ sent_of (map as_event (inputs code stream)) queues
  unfolding fetch_backfill_tickets read_backfill_request
  sent_of-fetch [] queues = refl
  sent_of-fetch (eof ∷ rest) queues = unfold backfill_loop in refl
  sent_of-fetch (recv_error e ∷ rest) queues = unfold backfill_loop in refl
  sent_of-fetch (message (BackfillMakeMatchesRequest.parameters p) ∷ rest) queues =
      sent_of-fetch rest queues
  sent_of-fetch (message BackfillMakeMatchesRequest.unset ∷ rest) queues = sent_of-fetch rest queues
  sent_of-fetch (message (BackfillMakeMatchesRequest.ticket t) ∷ rest) queues =
      next-sent (match_ticket (proto_ticket_to_matchfunction_ticket pie pb t))
        (fetch_backfill_tickets pie pb rest).events (map as_event (inputs code rest))
        (sent_of-fetch rest) queues
  sent_of-fetch (message (BackfillMakeMatchesRequest.backfill_ticket t) ∷ rest) queues =
      result-sent (proto_backfill_ticket_to_matchfunction_backfill_ticket pie pb t)
        (fetch_backfill_tickets pie pb rest) (inputs code rest) (sent_of-fetch rest) queues

  module _ (unmarshal : String → Result GameRules) where
    abbrev mm : MatchLogic
    mm = match_maker pie order uuid unmarshal

    abbrev BackfillCall : Type 0
    BackfillCall = Call Request Input BackfillProposal Response Queues

    -- With no rules the call has returned nil.
    abbrev run_if : Result (Option RuleSet) → List (Received Request) → BackfillCall
    run_if (ok none) stream = returned (ok tt)
    run_if (err e) stream = returned (err e)
    run_if (panic p) stream = returned (panic p)
    run_if (ok (some rules)) stream = run_with (ok rules) (λ rule. start code ([], [], 0) stream)

    unfoldable pub handle_backfill_matches : List (Received Request) → BackfillCall
    handle_backfill_matches [] = waiting
    handle_backfill_matches (first ∷ stream) = run_if (start_backfill_matches pb mm first) stream

    -- The first message, with rules as text.
    abbrev pub brings : String → Received Request
    brings text =
        message
          (BackfillMakeMatchesRequest.parameters (record { rules = some (record { json = text }) }))

    some_rules-ok :
        (r : Result RuleSet) {rules : RuleSet} → some_rules pb mm r ≡ ok (some rules) → r ≡ ok rules
    some_rules-ok (ok rules) h = cc
    some_rules-ok (err e) h = cc
    some_rules-ok (panic p) h = cc

    -- A first message that brings the rules.
    Brings : RuleSet → Received Request → Type 0
    Brings rules first =
        (text : String) × (first ≡ brings text) × (rules_from_json unmarshal text ≡ ok rules)

    started-Brings :
        (first : Received Request) (rules : RuleSet)
        → start_backfill_matches pb mm first ≡ ok (some rules)
        → Brings rules first
    unfolding start_backfill_matches match_maker Brings
    started-Brings eof rules h = cc
    started-Brings (recv_error e) rules h = cc
    started-Brings (message (BackfillMakeMatchesRequest.parameters p)) rules h =
        let (r, some_rules, read) = dereference-ok p.rules _ h in
        (
          r.json,
          ap (λ o. message (BackfillMakeMatchesRequest.parameters (record { rules = o })))
              some_rules,
          some_rules-ok _ read,
        )
    started-Brings (message (BackfillMakeMatchesRequest.backfill_ticket t)) rules h = cc
    started-Brings (message (BackfillMakeMatchesRequest.ticket t)) rules h = cc
    started-Brings (message BackfillMakeMatchesRequest.unset) rules h = cc

    run_if-runs :
        (r : Result (Option RuleSet)) (stream : List (Received Request)) (rule : GameRules)
        (s : Handler Request Input BackfillProposal Response Queues)
        → run_if r stream ≡ running_with rule s
        → (r ≡ ok (some (game_rules rule))) × (s ≡ start code ([], [], 0) stream)
    run_if-runs (ok none) stream rule s h = cc
    run_if-runs (err e) stream rule s h = cc
    run_if-runs (panic p) stream rule s h = cc
    run_if-runs (ok (some rules)) stream rule s h =
        let (started, same) = run_with-runs (ok rules) _ rule s h in (cc, same)

    -- Once the first message has come, a call of `BackfillMatches` runs its goroutines with
    -- some rules exactly if the message brings a text from which `json.Unmarshal` reads these
    -- rules and none of the three minimums in them is above its maximum; and they begin with
    -- empty queues and the rest of the stream.
    pub handle_backfill_matches-runs :
        (first : Received Request) (stream : List (Received Request)) (rule : GameRules)
        (s : Handler Request Input BackfillProposal Response Queues)
        → (handle_backfill_matches (first ∷ stream) ≡ running_with rule s) ↔ (
            (text : String) × (first ≡ brings text)
            × (unmarshal text ≡ ok rule)
            × IsChecked rule
            × (s ≡ start code ([], [], 0) stream))
    unfolding handle_backfill_matches start_backfill_matches match_maker run_with run_rules Brings
    handle_backfill_matches-runs first stream rule s = (
      λ h.
          let (started, same) = run_if-runs _ stream rule s h in
          let (text, e, read) = started-Brings first (game_rules rule) started in
          let (rule', read', same_rule, checked) =
            (rules_from_json-ok unmarshal text (game_rules rule)).0 read in
          let eq : rule ≡ rule' = cc in
          (text, e, read' ∙ ap ok (sym eq), subst IsChecked (sym eq) checked, same),
      λ (text, e, read, checked, same).
          rw
            (e, (rules_from_json-ok unmarshal text (game_rules rule)).1 (rule, read, refl, checked))
            (ap (running_with rule) (sym same)),
    )
