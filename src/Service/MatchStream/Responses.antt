-- ===== src/Service/MatchStream/Responses.antt =====
-- What the client of `MakeMatches` gets, in whatever order the goroutines run.
use matchmaking_function_grp.Prelude.{
  ℕ, ◌+◌, ◌*◌, ◌≤◌, ◌<◌, ◌≡◌, ◌≢◌, refl, ap, sym, subst, ◌∙◌, String, Bool, Option, none, some,
  List, [], ◌∷◌, ◌++◌, map, length, All, All-append_left, length-append, arith,
}
use mathlib.Core.List.{append_assoc}
use matchmaking_function_grp.External.{Pie, Protobuf}
use matchmaking_function_grp.Outcome.{Panic, Result, ok, Error, Ending}
use matchmaking_function_grp.DataObjects.{Ticket, Match}
use matchmaking_function_grp.Proto.{MakeMatchesRequest, MatchResponse}
use matchmaking_function_grp.Rules.{GameRules}
use matchmaking_function_grp.Matching.{matched}
use matchmaking_function_grp.Matching.Limits.{
  Numbers, rules_of, Fits, IsOrdered, min_players, max_players,
}
use matchmaking_function_grp.Matching.Stream.{IsGroup}
use matchmaking_function_grp.Pipeline.{
  Received, Code, Handler, Reader, receiving, writing, Sender, ranging, responding, finished,
  stopped, Steps, Crash, start, inputs, process,
}
use matchmaking_function_grp.Pipeline.Standing.{
  to_come, HasFailed, Answers, Answers-map, always-Determines,
}
use matchmaking_function_grp.Pipeline.Refinement.{
  Steps-Refines, start-Refines, IsDone, IsDone-sent, sent-prefix,
}
use matchmaking_function_grp.Pipeline.Bounds.{Steps-le, length-inputs}
use matchmaking_function_grp.Pipeline.Progress.{Closes, Survives, Ends, Steps-Ends, Steps-not-Crash}
use matchmaking_function_grp.Pipeline.Failure.{IsAbandoned, Steps-IsAbandoned, Steps-never_stops}
use matchmaking_function_grp.Service.MatchStream.Defs.{
  match_response, match_code, waited, make_matches_returned,
}
use matchmaking_function_grp.Service.MatchStream.Process.{process-Made}

matched-append : (xs ys : List Match) → matched (xs ++ ys) ≡ matched xs ++ matched ys
matched-append [] ys = refl
matched-append (x ∷ xs) ys = rw (matched-append xs ys, append_assoc)

regroup : (a b c d : List Ticket) → a ++ (b ++ (c ++ d)) ≡ ((a ++ b) ++ c) ++ d
regroup a b c d = simp append_assoc

-- Each group holds a ticket at least.
length-matched :
    (auto : Bool) (min max : ℕ) (ms : List Match)
    → All (IsGroup auto min max) ms
    → 0 < min
    → length ms ≤ length (matched ms)
length-matched auto min max [] g h = omega arith
length-matched auto min max (m ∷ ms) g h =
    omega (arith, g.0.1, length-matched auto min max ms g.1 h, length-append m.tickets (matched ms))

waited-stopped :
    {Request In Out : Type 0} (reader : Reader Request In) (sender : Sender Out)
    {r : Result (Unit {0})}
    → waited reader sender ≡ some r
    → reader ≡ stopped
waited-stopped stopped sender h = refl
waited-stopped (receiving l) ranging h = cc
waited-stopped (receiving l) (responding o) h = cc
waited-stopped (receiving l) (finished e) h = cc
waited-stopped (writing i l) ranging h = cc
waited-stopped (writing i l) (responding o) h = cc
waited-stopped (writing i l) (finished e) h = cc

waited-finished :
    {Request In Out : Type 0} (reader : Reader Request In) (sender : Sender Out)
    {r : Result (Unit {0})}
    → waited reader sender ≡ some r
    → ¬ HasFailed sender
    → sender ≡ finished none
waited-finished stopped ranging h n = cc
waited-finished stopped (responding o) h n = cc
waited-finished stopped (finished none) h n = refl
waited-finished stopped (finished (some e)) h n = absurd (n tt)
waited-finished (receiving l) sender h n = cc (waited-stopped (receiving l) sender h)
waited-finished (writing i l) sender h n = cc (waited-stopped (writing i l) sender h)

none_of : {A : Type 0} (o : Option A) → ((a : A) → o ≢ some a) → o ≡ none
none_of none h = refl
none_of (some a) h = absurd (h a refl)

-- `matches` are groups of the minimum of players, and with `rest` behind their tickets they hold
-- the tickets `ts`, in order.
pub record AreGroups (n : Numbers) (auto : Bool) (ts : List Ticket) (matches : List Match)
    (rest : List Ticket) : Type 0 where
  pub in_order : matched matches ++ rest ≡ ts
  pub groups : All (IsGroup auto (min_players n) (max_players n)) matches

module _ (pie : Pie) (pb : Protobuf) (uuid : ℕ → String) (n : Numbers) (auto : Bool) (fits : Fits n)
    (ordered : IsOrdered n) (positive : 0 < min_players n)
    (stream : List (Received (MakeMatchesRequest pb.Struct pb.Timestamp))) where
  abbrev State : Type 0
  State =
      Handler (MakeMatchesRequest pb.Struct pb.Timestamp) Ticket Match
        (MatchResponse pb.Struct pb.Timestamp) (List Ticket × ℕ)

  abbrev code :
      Code
        (MakeMatchesRequest pb.Struct pb.Timestamp)
        Ticket
        Match
        (MatchResponse pb.Struct pb.Timestamp)
        (List Ticket × ℕ)
  code = match_code pie pb uuid (rules_of n auto)

  one_response :
      (matches : List Match) (next : Option Match)
      (sent : List (MatchResponse pb.Struct pb.Timestamp))
      → Answers code matches next sent
      → sent ≡ map (match_response pie pb) matches
  one_response matches next sent =
      Answers-map code (match_response pie pb) matches next sent
        (always-Determines code (match_response pie pb) (λ o n r h. h) matches next)

  -- For rules in which no number is negative and no minimum is above its maximum, whose
  -- products fit into an `int` and whose minimum of players is positive: after any steps of the
  -- goroutines of `MakeMatches`, in any order and also where a response could not be sent, the
  -- responses that were sent are those of matches in groups of the minimum, whose tickets are,
  -- in order, a beginning of the tickets that the reader takes from the stream.
  pub match_stream-prefix :
      (k : ℕ) (s : State)
      → Steps code (start code ([], 0) stream) k s
      → (matches : List Match) × (rest : List Ticket) × (s.sent
          ≡ map (match_response pie pb) matches)
        × AreGroups n auto (inputs code stream) matches rest
  match_stream-prefix k s path =
      let f = Steps-Refines code path (start-Refines code ([], 0) stream) in
      let (taken, later, answered, others, came, made, sent) = sent-prefix code f in
      let m = process-Made pie pb uuid n auto fits ordered positive taken in
      (
        answered,
        matched others ++ (m.rest ++ later),
        one_response answered _ s.sent sent,
        record {
          in_order =
              regroup (matched answered) (matched others) m.rest later
              ∙ (ap (λ ms. (ms ++ m.rest) ++ later)
                    (sym (ap matched made ∙ matched-append answered others))
                  ∙ (ap (λ ts. ts ++ later) m.in_order ∙ came));
          groups = All-append_left _ answered others (subst (All _) made m.groups);
        },
      )

  -- For rules in which no number is negative and no minimum is above its maximum, whose
  -- products fit into an `int` and whose minimum of players is positive: if after any steps of
  -- its goroutines `MakeMatches` returns and no response has failed to be sent, then the
  -- responses are those of matches in groups of the minimum, whose tickets, followed by fewer
  -- than the minimum, are all the tickets that the reader takes from the stream, in order,
  -- whatever their players.
  pub match_stream-done :
      (k : ℕ) (s : State)
      → Steps code (start code ([], 0) stream) k s
      → make_matches_returned s ≡ some (ok tt)
      → (¬ HasFailed s.sender)
      → (matches : List Match) × (rest : List Ticket) × (s.sent
          ≡ map (match_response pie pb) matches)
        × AreGroups n auto (inputs code stream) matches rest
        × (length rest < min_players n)
  unfolding make_matches_returned
  match_stream-done k s path returned well =
      let done : IsDone code s = record {
        reader_done = waited-stopped s.reader s.sender returned;
        sender_done = waited-finished s.reader s.sender returned well;
      } in
      let f = Steps-Refines code path (start-Refines code ([], 0) stream) in
      let m = process-Made pie pb uuid n auto fits ordered positive (inputs code stream) in
      (
        (process code ([], 0) (inputs code stream)).sent,
        m.rest,
        one_response (process code ([], 0) (inputs code stream)).sent none s.sent
            (IsDone-sent code f done),
        record { in_order = m.in_order; groups = m.groups },
        m.too_few,
      )

  pub survives : Survives code ([], 0) (inputs code stream)
  survives taken later e =
      let m = process-Made pie pb uuid n auto fits ordered positive taken in
      ((m.rest, m.count), m.returned)

  -- For rules in which no number is negative and no minimum is above its maximum, whose
  -- products fit into an `int` and whose minimum of players is positive: if the stream ends and
  -- all of its messages up to there are tickets: from whatever the goroutines of `MakeMatches`
  -- have got to, with no response that has failed to be sent, some steps lead to the end of
  -- reader and sender, with a response for each match that is made of the tickets.
  pub match_stream-Ends :
      (k : ℕ) (s : State)
      → Steps code (start code ([], 0) stream) k s
      → Closes code stream
      → (¬ HasFailed s.sender)
      → Ends code ([], 0) stream s
  match_stream-Ends k s path c well = Steps-Ends code ([], 0) stream path c survives well

  -- For rules in which no number is negative and no minimum is above its maximum, whose
  -- products fit into an `int` and whose minimum of players is positive: the goroutines of
  -- `MakeMatches` make, in whatever order, at most seven steps for each message of the stream
  -- and three more.
  pub match_stream_steps :
      (k : ℕ) (s : State) → Steps code (start code ([], 0) stream) k s → k ≤ 7 * length stream + 3
  match_stream_steps k s path =
      let m = process-Made pie pb uuid n auto fits ordered positive (inputs code stream) in
      omega (
        arith,
        Steps-le code path,
        length-matched auto (min_players n) (max_players n)
            (process code ([], 0) (inputs code stream)).sent m.groups positive,
        length-append (matched (process code ([], 0) (inputs code stream)).sent) m.rest,
        ap length m.in_order,
        length-inputs code stream,
      )

  -- For rules in which no number is negative and no minimum is above its maximum, whose
  -- products fit into an `int` and whose minimum of players is positive: if the stream ends and
  -- all of its messages up to there are tickets, no goroutine of `MakeMatches` is ever about to
  -- panic.
  pub match_stream-not-Crash :
      (k : ℕ) (s : State)
      → Steps code (start code ([], 0) stream) k s
      → Closes code stream
      → (p : Panic) → ¬ Crash code s p
  match_stream-not-Crash k s path c p crash =
      Steps-not-Crash code ([], 0) stream path c survives crash

-- For any rules: once a response has failed to be sent and the worker of `MakeMatches` wants to
-- send another match, while a ticket is still to come, then whatever the goroutines do
-- afterwards `MakeMatches` has not returned and has sent nothing more.
pub match_stream_hangs :
    (pie : Pie) (pb : Protobuf) (uuid : ℕ → String) (rule : GameRules) (o : Match) (os : List Match)
    (e : Ending (List Ticket × ℕ)) (x : Error)
    (s : Handler
      (MakeMatchesRequest pb.Struct pb.Timestamp)
      Ticket
      Match
      (MatchResponse pb.Struct pb.Timestamp)
      (List Ticket × ℕ))
    → IsAbandoned (match_code pie pb uuid rule) o os e x s
    → to_come (match_code pie pb uuid rule) s.reader ≢ []
    → (k : ℕ)
      (t : Handler
        (MakeMatchesRequest pb.Struct pb.Timestamp)
        Ticket
        Match
        (MatchResponse pb.Struct pb.Timestamp)
        (List Ticket × ℕ))
    → Steps (match_code pie pb uuid rule) s k t
    → (make_matches_returned t ≡ none) × (t.sent ≡ s.sent)
unfolding make_matches_returned
match_stream_hangs pie pb uuid rule o os e x s a more k t path =
    let code = match_code pie pb uuid rule in
    (
      none_of (waited t.reader t.sender)
          (λ r h. Steps-never_stops code path a more (waited-stopped t.reader t.sender h)),
      (Steps-IsAbandoned code path a).2,
    )
