-- ===== src/Pipeline/Bounds.antt =====
-- Every step of a goroutine brings the handler nearer to its end.
use matchmaking_function_grp.Prelude.{
  ℕ, ◌+◌, ◌*◌, ◌≤◌, ◌<◌, ◌≡◌, ap, List, [], ◌∷◌, length, length-append, arith,
}
use matchmaking_function_grp.Outcome.{Ending, returns, panics, running, and_then}
use matchmaking_function_grp.Pipeline.Defs.{
  Received, Read, hands, passes, stops, crashes, Code, Reader, receiving, writing, stopped, Worker,
  selecting, sending, closed, Sender, ranging, responding, finished, Goroutines, Step, Steps, here,
  next, read_input, inputs, process, start,
}
use matchmaking_function_grp.Pipeline.Standing.{to_come, inputs_step}

abbrev reader_weight : {Request In : Type 0} → Reader Request In → ℕ
reader_weight (receiving stream) = 4 * length stream + 1
reader_weight (writing i stream) = 4 * length stream + 4
reader_weight stopped = 0

abbrev worker_weight : {Out State : Type 0} → Worker Out State → ℕ
worker_weight (selecting w) = 1
worker_weight (sending os e) = 2
worker_weight (closed w) = 0

abbrev sender_weight : {Out : Type 0} → Sender Out → ℕ
sender_weight ranging = 1
sender_weight (responding o) = 3
sender_weight (finished e) = 0

module _ {Request In Out Response State : Type 0} (code : Code Request In Out Response State) where
  -- How many results the worker makes of the inputs after a run with this end.
  abbrev results_after : Ending State → List In → ℕ
  results_after (returns w) is = length (process code w is).sent
  results_after (panics p) is = 0
  results_after running is = 0

  abbrev results_left : Worker Out State → List In → ℕ
  results_left (selecting w) is = length (process code w is).sent
  results_left (sending os e) is = length os + results_after e is
  results_left (closed w) is = 0

  abbrev weigh : Reader Request In → Worker Out State → Sender Out → ℕ
  weigh reader worker sender =
      3 * results_left worker (to_come code reader)
      + reader_weight reader
      + worker_weight worker
      + sender_weight sender

  length-and_then :
      (sent : List Out) (e : Ending State) (is : List In)
      → length (and_then (record { sent = sent; ending = e }) (λ w. process code w is)).sent
        ≡ length sent + results_after e is
  length-and_then sent (returns w) is = length-append sent (process code w is).sent
  length-and_then sent (panics p) is = omega arith
  length-and_then sent running is = omega arith

  Step-weigh :
      {s t : Goroutines code}
      → Step code s t
      → weigh t.reader t.worker t.sender < weigh s.reader s.worker s.sender
  Step-weigh {s} (Step.receive {r} {rest} at got) =
      rw at (omega (arith, ap (results_left s.worker) (inputs_step code r rest _ got)))
  Step-weigh {s} (Step.pass {r} {rest} at got) =
      rw at (omega (arith, ap (results_left s.worker) (inputs_step code r rest _ got)))
  Step-weigh {s} (Step.stop {r} {rest} at got) =
      rw at (omega (arith, ap (results_left s.worker) (inputs_step code r rest _ got)))
  Step-weigh (Step.take {i} {rest} {w} at idle) =
      rw (at, idle)
        (omega
          (arith, length-and_then (code.work w i).sent (code.work w i).ending (inputs code rest)))
  Step-weigh (Step.notice at idle) = rw (at, idle) (omega arith)
  Step-weigh (Step.hand_over at idle) = rw (at, idle) (omega arith)
  Step-weigh (Step.select at) = rw at (omega arith)
  Step-weigh (Step.send at r) = rw at (omega arith)
  Step-weigh (Step.fail_to_send e at) = rw at (omega arith)
  Step-weigh (Step.end_of_range at idle) = rw (at, idle) (omega arith)

  pub weight : Goroutines code → ℕ
  weight s = weigh s.reader s.worker s.sender

  pub Step-weight : {s t : Goroutines code} → Step code s t → weight t < weight s
  unfolding weight
  Step-weight step = Step-weigh step

  Steps-weight :
      {s : Goroutines code} {n : ℕ} {t : Goroutines code}
      → Steps code s n t
      → n + weight t ≤ weight s
  Steps-weight here = omega arith
  Steps-weight (next path step) = omega (arith, Steps-weight path, Step-weight step)

  -- At most four steps for each message, three for each result, and three at the ends.
  pub Steps-le :
      {n : ℕ} {w : State} {stream : List (Received Request)} {t : Goroutines code}
      → Steps code (start code w stream) n t
      → n ≤ 4 * length stream + 3 * length (process code w (inputs code stream)).sent + 3
  unfolding weight
  Steps-le path = omega (arith, Steps-weight path)

  length-read_input : (x : Read In) (is : List In) → length (read_input code x is) ≤ length is + 1
  length-read_input (hands i) is = omega arith
  length-read_input passes is = omega arith
  length-read_input stops is = omega arith
  length-read_input (crashes p) is = omega arith

  pub length-inputs :
      (stream : List (Received Request)) → length (inputs code stream) ≤ length stream
  length-inputs [] = omega arith
  length-inputs (r ∷ rest) =
      omega (arith, length-read_input (code.read r) (inputs code rest), length-inputs rest)
