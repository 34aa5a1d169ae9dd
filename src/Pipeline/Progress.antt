-- ===== src/Pipeline/Progress.antt =====
-- The goroutines never wait for one another without end, unless a response cannot be sent.
use matchmaking_function_grp.Prelude.{
  ℕ, zero, suc, ◌<◌, ◌≡◌, ◌⊎◌, inl, inr, refl, ap, sym, subst, ◌∙◌, none, some, List, [], ◌∷◌, ◌++◌,
  arith,
}
use matchmaking_function_grp.Outcome.{Panic, Ending, returns}
use matchmaking_function_grp.Pipeline.Defs.{
  Received, Read, hands, passes, stops, crashes, Code, Reader, receiving, writing, stopped, Worker,
  selecting, sending, closed, Sender, ranging, responding, finished, Goroutines, Step, Steps, here,
  next, Crash, reader_panics, worker_panics, inputs, process, start,
}
use matchmaking_function_grp.Pipeline.Standing.{to_come, HasFailed, Answers, worker_ending}
use matchmaking_function_grp.Pipeline.Refinement.{
  Refines, Step-Refines, Steps-Refines, start-Refines, IsDone, IsDone-sent,
}
use matchmaking_function_grp.Pipeline.Bounds.{weight, Step-weight}

module _ {Request In Out Response State : Type 0} (code : Code Request In Out Response State) where
  -- What a read lets through leads to a stop, with no panic before it.
  abbrev Leads : Read In → Type 0 → Type 0
  Leads (hands i) rest = rest
  Leads passes rest = rest
  Leads stops rest = Unit
  Leads (crashes p) rest = ⊥

  -- The stream ends, and no message in it makes the reader panic.
  abbrev pub Closes : List (Received Request) → Type 0
  Closes [] = ⊥
  Closes (r ∷ rest) = Leads (code.read r) (Closes rest)

  abbrev ClosesBehind : Reader Request In → Type 0
  ClosesBehind (receiving stream) = Closes stream
  ClosesBehind (writing i stream) = Closes stream
  ClosesBehind stopped = Unit

  -- The worker returns, whatever part of the inputs it has got.
  abbrev pub Survives : State → List In → Type 0
  Survives w is =
      (taken later : List In)
      → taken ++ later ≡ is
      → (v : State) × ((process code w taken).ending ≡ returns v)

  record CanGoOn (w : State) (stream : List (Received Request)) (s : Goroutines code) : Type 0 where
    refines : Refines code w stream s
    closes : ClosesBehind s.reader
    well : ¬ HasFailed s.sender

  abbrev Next : State → List (Received Request) → Goroutines code → Type 0
  Next w stream s = (t : Goroutines code) × Step code s t × CanGoOn w stream t

  module _ {w : State} {stream : List (Received Request)} {s : Goroutines code}
      (g : CanGoOn w stream s) where
    after :
        {t : Goroutines code}
        → Step code s t
        → ClosesBehind t.reader
        → (¬ HasFailed t.sender)
        → Next w stream s
    after {t} step c n =
        (t, step, record { refines = Step-Refines code step g.refines; closes = c; well = n })

    -- The reader is in `Recv`.
    read-Next :
        (r : Received Request) (rest : List (Received Request)) (x : Read In)
        → s.reader ≡ receiving (r ∷ rest)
        → code.read r ≡ x
        → Leads x (Closes rest)
        → Next w stream s
    read-Next r rest (hands i) at got c = after (Step.receive at got) c g.well
    read-Next r rest passes at got c = after (Step.pass at got) c g.well
    read-Next r rest stops at got c = after (Step.stop at got) tt g.well
    read-Next r rest (crashes p) at got c = absurd c

    -- The worker is in `select`.
    select-Next :
        (v : State) (x : Reader Request In)
        → s.worker ≡ selecting v
        → s.reader ≡ x
        → Next w stream s
    select-Next v (receiving []) idle at = absurd (subst ClosesBehind at g.closes)
    select-Next v (receiving (r ∷ rest)) idle at =
        read-Next r rest (code.read r) at refl (subst ClosesBehind at g.closes)
    select-Next v (writing i rest) idle at =
        after (Step.take at idle) (subst ClosesBehind at g.closes) g.well
    select-Next v stopped idle at = after (Step.notice at idle) g.closes g.well

    -- The sender waits for a result.
    worker-Next :
        (x : Worker Out State)
        → ((e : Ending State) → worker_ending s.worker ≡ e → (v : State) × (e ≡ returns v))
        → s.worker ≡ x
        → s.sender ≡ ranging
        → Next w stream s
    worker-Next (selecting v) lives at idle = select-Next v s.reader at refl
    worker-Next (sending (o ∷ os) e) lives at idle =
        after (Step.hand_over at idle) g.closes (λ h. h)
    worker-Next (sending [] e) lives at idle =
        let (v, returned) = lives e (ap worker_ending at) in
        after (Step.select (at ∙ ap (sending []) returned)) g.closes g.well
    worker-Next (closed v) lives at idle = after (Step.end_of_range at idle) g.closes (λ h. h)

    sender-Next :
        (x : Sender Out)
        → Survives w (inputs code stream)
        → s.sender ≡ x
        → IsDone code s ⊎ Next w stream s
    sender-Next ranging lives at = inr (
        worker-Next s.worker
          (λ e h.
            let f = g.refines in
            let (v, returned) = lives f.taken (to_come code s.reader) f.came in
            (v, sym h ∙ (sym f.stands ∙ returned)))
          refl at)
    sender-Next (responding o) lives at =
        inr (after (Step.send at (code.respond-IsResponse o _)) g.closes (λ h. h))
    sender-Next (finished none) lives at =
        let (v, stood) = g.refines.finished_late at in
        inl (record { reader_done = g.refines.closed_late v stood; sender_done = at })
    sender-Next (finished (some e)) lives at = absurd (g.well (subst HasFailed (sym at) tt))

  -- Some steps lead to the end of the handler, with a response for each result.
  pub record Ends (w : State) (stream : List (Received Request)) (s : Goroutines code)
      : Type 0 where
    pub steps : ℕ
    pub last : Goroutines code
    pub path : Steps code s steps last
    pub done : IsDone code last
    pub all_sent : Answers code (process code w (inputs code stream)).sent none last.sent

  pub Steps-trans :
      {s : Goroutines code} {n : ℕ} {t : Goroutines code} {m : ℕ} {u : Goroutines code}
      → Steps code s n t
      → Steps code t m u
      → (k : ℕ) × Steps code s k u
  Steps-trans {n = n} path here = (n, path)
  Steps-trans path (next more step) =
      let (k, whole) = Steps-trans path more in (suc k, next whole step)

  first :
      {s t : Goroutines code} {n : ℕ} {u : Goroutines code}
      → Step code s t
      → Steps code t n u
      → Steps code s (suc n) u
  first step here = next here step
  first step (next path last) = next (first step path) last

  go_on :
      (w : State) (stream : List (Received Request)) (fuel : ℕ) (s : Goroutines code)
      → Survives w (inputs code stream)
      → CanGoOn w stream s
      → weight code s < fuel
      → Ends w stream s
  go_on w stream zero s lives g h = elim h [ ]
  go_on w stream (suc fuel) s lives g h = elim (sender-Next g s.sender lives refl) [
    | inl done ↦ record {
      steps = zero;
      last = s;
      path = here;
      done = done;
      all_sent = IsDone-sent code g.refines done;
    }
    | inr (t, step, g') ↦
        let rest = go_on w stream fuel t lives g' (omega (arith, Step-weight code step)) in
        record {
          steps = suc rest.steps;
          last = rest.last;
          path = first step rest.path;
          done = rest.done;
          all_sent = rest.all_sent;
        }
  ]

  Closes-behind :
      (r : Received Request) (rest : List (Received Request)) (x : Read In)
      → code.read r ≡ x
      → Closes (r ∷ rest)
      → Leads x (Closes rest)
  Closes-behind r rest x got c = subst (λ y. Leads y (Closes rest)) got c

  Step-ClosesBehind :
      {s t : Goroutines code} → Step code s t → ClosesBehind s.reader → ClosesBehind t.reader
  Step-ClosesBehind (Step.receive {r} {rest} at got) c =
      Closes-behind r rest _ got (subst ClosesBehind at c)
  Step-ClosesBehind (Step.pass {r} {rest} at got) c =
      Closes-behind r rest _ got (subst ClosesBehind at c)
  Step-ClosesBehind (Step.stop at got) c = tt
  Step-ClosesBehind (Step.take at idle) c = subst ClosesBehind at c
  Step-ClosesBehind (Step.notice at idle) c = c
  Step-ClosesBehind (Step.hand_over at idle) c = c
  Step-ClosesBehind (Step.select at) c = c
  Step-ClosesBehind (Step.send at r) c = c
  Step-ClosesBehind (Step.fail_to_send e at) c = c
  Step-ClosesBehind (Step.end_of_range at idle) c = c

  Steps-ClosesBehind :
      {s : Goroutines code} {n : ℕ} {t : Goroutines code}
      → Steps code s n t
      → ClosesBehind s.reader
      → ClosesBehind t.reader
  Steps-ClosesBehind here c = c
  Steps-ClosesBehind (next path step) c = Step-ClosesBehind step (Steps-ClosesBehind path c)

  -- A worker that never panics, on a stream that ends: the handler can always get to its end.
  pub Steps-Ends :
      (w : State) (stream : List (Received Request)) {n : ℕ} {s : Goroutines code}
      → Steps code (start code w stream) n s
      → Closes stream
      → Survives w (inputs code stream)
      → (¬ HasFailed s.sender)
      → Ends w stream s
  Steps-Ends w stream {s = s} path c lives well =
      go_on w stream (suc (weight code s)) s lives
        (record {
          refines = Steps-Refines code path (start-Refines code w stream);
          closes = Steps-ClosesBehind path c;
          well = well;
        })
        (omega arith)

  -- On such a stream, with such a worker, there is no panic either.
  pub Steps-not-Crash :
      (w : State) (stream : List (Received Request)) {n : ℕ} {s : Goroutines code} {p : Panic}
      → Steps code (start code w stream) n s
      → Closes stream
      → Survives w (inputs code stream)
      → ¬ Crash code s p
  Steps-not-Crash w stream path c lives (reader_panics {r} {rest} at got) =
      Closes-behind r rest _ got (subst ClosesBehind at (Steps-ClosesBehind path c))
  Steps-not-Crash w stream {s = s} path c lives (worker_panics at) =
      let f = Steps-Refines code path (start-Refines code w stream) in
      let (v, returned) = lives f.taken (to_come code s.reader) f.came in
      cc (sym returned ∙ (f.stands ∙ ap worker_ending at))
