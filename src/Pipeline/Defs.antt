-- ===== src/Pipeline/Defs.antt =====
-- A stream handler as goroutines over unbuffered channels, one step of one of them at a time: the
-- reader takes messages from the stream and writes them to the ticket channels, the worker
-- receives them and sends results, and the sender sends a response for each result.
use matchmaking_function_grp.Prelude.{ℕ, zero, suc, ◌≡◌, Option, none, some, List, [], ◌∷◌, ◌++◌}
use matchmaking_function_grp.Outcome.{Panic, Error, Ending, returns, panics, Run, return, and_then}

-- What a call of `server.Recv()` returns.
pub data Received (Request : Type 0) : Type 0 where
  message : Request → Received Request
  eof : Received Request
  recv_error : Error → Received Request

-- What the reader does with it: writes to a channel, goes on, returns, or panics.
pub data Read (In : Type 0) : Type 0 where
  hands : In → Read In
  passes : Read In
  stops : Read In
  crashes : Panic → Read In

-- The code of the goroutines: the body of the reader's loop, what the worker does with one input,
-- and the conversion of a result. A result may share memory with the next one, if the worker is
-- already about to send that: `IsResponse` tells which responses may come of a result then, and
-- `respond` is the one of a result as it was sent on the channel.
pub record Code (Request In Out Response State : Type 0) : Type 1 where
  pub read : Received Request → Read In
  pub work : State → In → Run Out State
  pub respond : Out → Response
  pub IsResponse : Out → Option Out → Response → Type 0
  pub respond-IsResponse : (o : Out) (next : Option Out) → IsResponse o next (respond o)
  pub IsResponse-later :
      (o : Out) (next : Option Out) (r : Response) → IsResponse o none r → IsResponse o next r

-- In `Recv` with what the stream will give, in the write to a channel, or both channels closed.
pub data Reader (Request In : Type 0) : Type 0 where
  receiving : List (Received Request) → Reader Request In
  writing : In → List (Received Request) → Reader Request In
  stopped : Reader Request In

-- In `select`, in the write of results with what comes afterwards, or the results channel closed.
pub data Worker (Out State : Type 0) : Type 0 where
  selecting : State → Worker Out State
  sending : List Out → Ending State → Worker Out State
  closed : State → Worker Out State

-- The result that the worker is writing to the channel.
abbrev pub about_to_send : {Out State : Type 0} → Worker Out State → Option Out
about_to_send (sending (o ∷ os) e) = some o
about_to_send (sending [] e) = none
about_to_send (selecting w) = none
about_to_send (closed w) = none

-- Receiving from the results channel, in `Send`, or out of the loop, with the error of `Send`.
pub data Sender (Out : Type 0) : Type 0 where
  ranging : Sender Out
  responding : Out → Sender Out
  finished : Option Error → Sender Out

-- The goroutines, and the responses that were sent with no error.
pub record Handler (Request In Out Response State : Type 0) : Type 0 where
  pub reader : Reader Request In
  pub worker : Worker Out State
  pub sender : Sender Out
  pub sent : List Response

module _ {Request In Out Response State : Type 0} (code : Code Request In Out Response State) where
  abbrev pub Goroutines : Type 0
  Goroutines = Handler Request In Out Response State

  pub data Step (s : Goroutines) : Goroutines → Type 0 where
    receive :
        {r : Received Request} {rest : List (Received Request)} {i : In}
        → s.reader ≡ receiving (r ∷ rest)
        → code.read r ≡ hands i
        → Step s (record s { reader = writing i rest })
    pass :
        {r : Received Request} {rest : List (Received Request)}
        → s.reader ≡ receiving (r ∷ rest)
        → code.read r ≡ passes
        → Step s (record s { reader = receiving rest })
    stop :
        {r : Received Request} {rest : List (Received Request)}
        → s.reader ≡ receiving (r ∷ rest)
        → code.read r ≡ stops
        → Step s (record s { reader = stopped })
    take :
        {i : In} {rest : List (Received Request)} {w : State}
        → s.reader ≡ writing i rest
        → s.worker ≡ selecting w
        → Step s (record s {
          reader = receiving rest;
          worker = sending (code.work w i).sent (code.work w i).ending;
        })
    notice :
        {w : State}
        → s.reader ≡ stopped
        → s.worker ≡ selecting w
        → Step s (record s { worker = closed w })
    hand_over :
        {o : Out} {os : List Out} {e : Ending State}
        → s.worker ≡ sending (o ∷ os) e
        → s.sender ≡ ranging
        → Step s (record s { worker = sending os e; sender = responding o })
    select :
        {w : State} → s.worker ≡ sending [] (returns w) → Step s (record s { worker = selecting w })
    send :
        {o : Out} {r : Response}
        → s.sender ≡ responding o
        → code.IsResponse o (about_to_send s.worker) r
        → Step s (record s { sender = ranging; sent = s.sent ++ r ∷ [] })
    fail_to_send :
        {o : Out} (e : Error)
        → s.sender ≡ responding o
        → Step s (record s { sender = finished (some e) })
    end_of_range :
        {w : State}
        → s.worker ≡ closed w
        → s.sender ≡ ranging
        → Step s (record s { sender = finished none })

  -- A panic of the reader or of the worker ends the process.
  pub data Crash (s : Goroutines) (p : Panic) : Type 0 where
    reader_panics :
        {r : Received Request} {rest : List (Received Request)}
        → s.reader ≡ receiving (r ∷ rest)
        → code.read r ≡ crashes p
        → Crash s p
    worker_panics : s.worker ≡ sending [] (panics p) → Crash s p

  -- `n` steps, of any goroutines in any order.
  pub data Steps (s : Goroutines) : ℕ → Goroutines → Type 0 where
    here : Steps s zero s
    next : {n : ℕ} {t u : Goroutines} → Steps s n t → Step t u → Steps s (suc n) u

  -- The inputs among what the stream gives, up to where the reader stops.
  abbrev pub read_input : Read In → List In → List In
  read_input (hands i) is = i ∷ is
  read_input passes is = is
  read_input stops is = []
  read_input (crashes p) is = []

  abbrev pub inputs : List (Received Request) → List In
  inputs [] = []
  inputs (r ∷ rest) = read_input (code.read r) (inputs rest)

  -- The worker alone, with all of its inputs at hand.
  abbrev pub process : State → List In → Run Out State
  process w [] = return w
  process w (i ∷ is) = and_then (code.work w i) (λ w'. process w' is)

  -- Where the goroutines stand when the handler has started them.
  abbrev pub start : State → List (Received Request) → Goroutines
  start w stream = record {
    reader = receiving stream;
    worker = selecting w;
    sender = ranging;
    sent = [];
  }
