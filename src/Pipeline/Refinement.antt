-- ===== src/Pipeline/Refinement.antt =====
-- Every interleaving of the goroutines is a run of the worker alone.
use matchmaking_function_grp.Prelude.{
  ℕ, ◌≡◌, refl, ap, sym, subst, ◌∙◌, none, some, List, [], ◌∷◌, ◌++◌,
}
use mathlib.Core.List.{append-nil, append_assoc, head?}
use matchmaking_function_grp.Outcome.{Error, Run}
use matchmaking_function_grp.Pipeline.Defs.{
  Received, Code, Reader, receiving, writing, stopped, Worker, about_to_send, selecting, sending,
  closed, Sender, ranging, responding, finished, Goroutines, Step, Steps, here, next, inputs,
  process, start,
}
use matchmaking_function_grp.Pipeline.Standing.{
  pending, in_flight, worker_ending, HasFailed, to_come, Answers, Answers-more, Answers-snoc,
  about_to_send-pending, inputs_step,
}
use matchmaking_function_grp.Pipeline.Runs.{
  process-snoc, more_made, one_answered, all_answered, one_lost,
}

module _ {Request In Out Response State : Type 0} (code : Code Request In Out Response State) where
  -- The goroutines did what the worker alone does with the inputs `taken`: its results are those
  -- that the sender has answered, lost and holds, and those that the worker holds.
  pub record Refines (w : State) (stream : List (Received Request)) (s : Goroutines code)
      : Type 0 where
    pub taken : List In
    pub answered : List Out
    pub lost : List Out
    pub came : taken ++ to_come code s.reader ≡ inputs code stream
    pub made :
        (process code w taken).sent ≡ answered ++ (lost ++ (in_flight s.sender ++ pending s.worker))
    pub stands : (process code w taken).ending ≡ worker_ending s.worker
    pub responses :
        Answers code answered (head? (lost ++ (in_flight s.sender ++ pending s.worker))) s.sent
    pub none_lost : ¬ HasFailed s.sender → lost ≡ []
    pub closed_late : (v : State) → s.worker ≡ closed v → s.reader ≡ stopped
    pub finished_late : s.sender ≡ finished none → (v : State) × (s.worker ≡ closed v)

  module _ {w : State} {stream : List (Received Request)} {s : Goroutines code}
      (r : Refines w stream s) where
    open r use {taken, answered, lost, came, made, stands, none_lost}

    -- Only the reader moves, and keeps what is to come.
    reader-Refines :
        (reader : Reader Request In)
        → to_come code reader ≡ to_come code s.reader
        → ((v : State) → s.worker ≡ closed v → reader ≡ stopped)
        → Refines w stream (record s { reader = reader })
    reader-Refines reader same late = record {
      taken = taken;
      answered = answered;
      lost = lost;
      came = ap (λ is. taken ++ is) same ∙ came;
      made = made;
      stands = stands;
      responses = r.responses;
      none_lost = none_lost;
      closed_late = late;
      finished_late = r.finished_late;
    }

    -- The worker and the sender move, and keep the results that are not answered yet.
    results-Refines :
        (worker : Worker Out State) (sender : Sender Out)
        → in_flight sender ++ pending worker ≡ in_flight s.sender ++ pending s.worker
        → worker_ending worker ≡ worker_ending s.worker
        → (¬ HasFailed sender → ¬ HasFailed s.sender)
        → ((v : State) → worker ≡ closed v → s.reader ≡ stopped)
        → (sender ≡ finished none → (v : State) × (worker ≡ closed v))
        → Refines w stream (record s { worker = worker; sender = sender })
    results-Refines worker sender same ending well late end = record {
      taken = taken;
      answered = answered;
      lost = lost;
      came = came;
      made = made ∙ ap (λ os. answered ++ (lost ++ os)) (sym same);
      stands = stands ∙ sym ending;
      responses =
          subst (λ os. Answers code answered (head? (lost ++ os)) s.sent) (sym same) r.responses;
      none_lost = λ h. none_lost (well h);
      closed_late = late;
      finished_late = end;
    }

    take-Refines :
        (i : In) (rest : List (Received Request)) (v : State)
        → s.reader ≡ writing i rest
        → s.worker ≡ selecting v
        → Refines w stream (record s {
          reader = receiving rest;
          worker = sending (code.work v i).sent (code.work v i).ending;
        })
    take-Refines i rest v at idle =
        let step = process-snoc code w v taken i (stands ∙ ap worker_ending idle) in
        record {
          taken = taken ++ i ∷ [];
          answered = answered;
          lost = lost;
          came =
              append_assoc taken (i ∷ []) (inputs code rest)
              ∙ (ap (λ x. taken ++ to_come code x) (sym at) ∙ came);
          made =
              ap (λ (x : Run Out State). x.sent) step
              ∙ more_made answered lost (in_flight s.sender) (pending s.worker) _ made
                  (ap pending idle);
          stands = ap (λ (x : Run Out State). x.ending) step;
          responses =
              Answers-more code answered s.sent lost (in_flight s.sender) (code.work v i).sent (
                subst
                  (λ x.
                    Answers code answered (head? (lost ++ (in_flight s.sender ++ pending x)))
                      s.sent)
                  idle r.responses);
          none_lost = none_lost;
          closed_late = λ v h. cc h;
          finished_late = λ h. let (u, e) = r.finished_late h in cc (sym idle ∙ e);
        }

    -- The first result with no answer is the one that the sender holds.
    in_hand :
        (o : Out) → s.sender ≡ responding o → lost ≡ [] → Answers code answered (some o) s.sent
    in_hand o at whole =
        subst (λ x. Answers code answered (head? (in_flight x ++ pending s.worker)) s.sent) at
          (subst
            (λ x.
              Answers code answered (head? (x ++ (in_flight s.sender ++ pending s.worker))) s.sent)
            whole r.responses)

    send-Refines :
        (o : Out) {x : Response}
        → s.sender ≡ responding o
        → code.IsResponse o (about_to_send s.worker) x
        → Refines w stream (record s { sender = ranging; sent = s.sent ++ x ∷ [] })
    send-Refines o {x} at response =
        let whole = none_lost (λ h. subst HasFailed at h) in
        record {
          taken = taken;
          answered = answered ++ o ∷ [];
          lost = [];
          came = came;
          made =
              one_answered answered lost (in_flight s.sender) (pending s.worker) made whole
                (ap in_flight at);
          stands = stands;
          responses =
              Answers-snoc code (head? (pending s.worker)) answered s.sent (in_hand o at whole)
                (subst (λ n. code.IsResponse o n x) (about_to_send-pending s.worker) response);
          none_lost = λ h. refl;
          closed_late = r.closed_late;
          finished_late = λ h. cc h;
        }

    fail_to_send-Refines :
        (o : Out) (e : Error)
        → s.sender ≡ responding o
        → Refines w stream (record s { sender = finished (some e) })
    fail_to_send-Refines o e at =
        let whole = none_lost (λ h. subst HasFailed at h) in
        record {
          taken = taken;
          answered = answered;
          lost = o ∷ [];
          came = came;
          made =
              one_lost answered lost (in_flight s.sender) (pending s.worker) made whole
                (ap in_flight at);
          stands = stands;
          responses = in_hand o at whole;
          none_lost = λ h. absurd (h tt);
          closed_late = r.closed_late;
          finished_late = λ h. cc h;
        }

  pub Step-Refines :
      {w : State} {stream : List (Received Request)} {s t : Goroutines code}
      → Step code s t
      → Refines w stream s
      → Refines w stream t
  Step-Refines (Step.receive {r} {rest} {i} at got) f =
      reader-Refines f (writing i rest) (sym (ap (to_come code) at ∙ inputs_step code r rest _ got))
        (λ v h. cc (sym at ∙ f.closed_late v h))
  Step-Refines (Step.pass {r} {rest} at got) f =
      reader-Refines f (receiving rest) (sym (ap (to_come code) at ∙ inputs_step code r rest _ got))
        (λ v h. cc (sym at ∙ f.closed_late v h))
  Step-Refines (Step.stop {r} {rest} at got) f =
      reader-Refines f stopped (sym (ap (to_come code) at ∙ inputs_step code r rest _ got))
        (λ v h. refl)
  Step-Refines (Step.take {i} {rest} {w} at idle) f = take-Refines f i rest w at idle
  Step-Refines {s = s} (Step.notice {w} at idle) f =
      results-Refines f (closed w) s.sender (ap (λ x. in_flight s.sender ++ pending x) (sym idle))
        (ap worker_ending (sym idle)) (λ h. h) (λ v h. at) (λ h. (w, refl))
  Step-Refines (Step.hand_over {o} {os} {e} at idle) f =
      results-Refines f (sending os e) (responding o) (rw (at, idle)) (ap worker_ending (sym at))
        (λ h g. subst HasFailed idle g) (λ v h. cc h) (λ h. cc h)
  Step-Refines {s = s} (Step.select {w} at) f =
      results-Refines f (selecting w) s.sender (rw at) (ap worker_ending (sym at)) (λ h. h)
        (λ v h. cc h) (λ h. let (u, e) = f.finished_late h in cc (sym at ∙ e))
  Step-Refines (Step.send {o} at response) f = send-Refines f o at response
  Step-Refines (Step.fail_to_send {o} e at) f = fail_to_send-Refines f o e at
  Step-Refines {s = s} (Step.end_of_range {w} at idle) f =
      results-Refines f s.worker (finished none)
        (ap (λ x. in_flight x ++ pending s.worker) (sym idle)) refl (λ h g. subst HasFailed idle g)
        f.closed_late (λ h. (w, at))

  pub Steps-Refines :
      {w : State} {stream : List (Received Request)} {s : Goroutines code} {n : ℕ}
      {t : Goroutines code}
      → Steps code s n t
      → Refines w stream s
      → Refines w stream t
  Steps-Refines here f = f
  Steps-Refines (next path step) f = Step-Refines step (Steps-Refines path f)

  pub start-Refines :
      (w : State) (stream : List (Received Request)) → Refines w stream (start code w stream)
  start-Refines w stream = record {
    taken = [];
    answered = [];
    lost = [];
    came = refl;
    made = refl;
    stands = refl;
    responses = tt;
    none_lost = λ h. refl;
    closed_late = λ v h. cc h;
    finished_late = λ h. cc h;
  }

  -- Reader and sender are done, and the sender has met no error.
  pub record IsDone (s : Goroutines code) : Type 0 where
    pub reader_done : s.reader ≡ stopped
    pub sender_done : s.sender ≡ finished none

  -- All inputs were processed, and all results were answered.
  pub IsDone-sent :
      {w : State} {stream : List (Received Request)} {s : Goroutines code}
      → Refines w stream s
      → IsDone s
      → Answers code (process code w (inputs code stream)).sent none s.sent
  IsDone-sent {w} {stream} {s} f d =
      let (v, stood) = f.finished_late d.sender_done in
      let all_taken : f.taken ≡ inputs code stream =
        sym (append-nil f.taken)
        ∙ (ap (λ x. f.taken ++ to_come code x) (sym d.reader_done) ∙ f.came) in
      let none_failed = λ (h : HasFailed s.sender). subst HasFailed d.sender_done h in
      let whole = f.none_lost none_failed in
      let nothing_left : f.lost ++ (in_flight s.sender ++ pending s.worker) ≡ [] =
        rw (whole, d.sender_done, stood) in
      subst (λ os. Answers code os none s.sent)
        (sym (
          ap (λ is. (process code w is).sent) (sym all_taken)
          ∙ all_answered f.answered f.lost (in_flight s.sender) (pending s.worker) f.made whole
              (ap in_flight d.sender_done) (ap pending stood)))
        (subst (λ os. Answers code f.answered (head? os) s.sent) nothing_left f.responses)

  -- What was answered so far is a beginning of the results of the inputs that were taken.
  pub sent-prefix :
      {w : State} {stream : List (Received Request)} {s : Goroutines code}
      → Refines w stream s
      → (taken : List In) × (later : List In) × (answered : List Out) × (rest : List Out) × (taken
            ++ later
          ≡ inputs code stream)
        × ((process code w taken).sent ≡ answered ++ rest)
        × Answers code answered (head? rest) s.sent
  sent-prefix {s = s} f =
      (f.taken, to_come code s.reader, f.answered, _, f.came, f.made, f.responses)
