-- ===== src/Pipeline/Panics.antt =====
-- Where a panic of the goroutines comes from: a message of the stream, or the worker's inputs.
use matchmaking_function_grp.Prelude.{
  ℕ, ◌≡◌, ◌⊎◌, inl, inr, refl, sym, subst, ◌∙◌, ap, List, [], ◌∷◌, ◌++◌,
}
use mathlib.Core.List.{append_assoc}
use matchmaking_function_grp.Outcome.{Panic, panics}
use matchmaking_function_grp.Pipeline.Defs.{
  Received, crashes, Code, Reader, receiving, writing, stopped, Goroutines, Step, Steps, here, next,
  Crash, reader_panics, worker_panics, inputs, process, start,
}
use matchmaking_function_grp.Pipeline.Standing.{to_come, worker_ending}
use matchmaking_function_grp.Pipeline.Refinement.{Steps-Refines, start-Refines}

module _ {Request In Out Response State : Type 0} (code : Code Request In Out Response State) where
  -- The reader has gone through a beginning of the stream.
  abbrev HasRead : List (Received Request) → Reader Request In → Type 0
  HasRead stream (receiving rest) = (before : List (Received Request)) × (stream ≡ before ++ rest)
  HasRead stream (writing i rest) = (before : List (Received Request)) × (stream ≡ before ++ rest)
  HasRead stream stopped = Unit

  one_more :
      {stream rest : List (Received Request)} (r : Received Request)
      → HasRead stream (receiving (r ∷ rest))
      → HasRead stream (receiving rest)
  one_more {rest = rest} r (before, e) =
      (before ++ r ∷ [], e ∙ sym (append_assoc before (r ∷ []) rest))

  Step-HasRead :
      (stream : List (Received Request)) {s t : Goroutines code}
      → Step code s t
      → HasRead stream s.reader
      → HasRead stream t.reader
  Step-HasRead stream (Step.receive {r} at got) h = one_more r (subst (HasRead stream) at h)
  Step-HasRead stream (Step.pass {r} at got) h = one_more r (subst (HasRead stream) at h)
  Step-HasRead stream (Step.stop at got) h = tt
  Step-HasRead stream (Step.take at idle) h = subst (HasRead stream) at h
  Step-HasRead stream (Step.notice at idle) h = h
  Step-HasRead stream (Step.hand_over at idle) h = h
  Step-HasRead stream (Step.select at) h = h
  Step-HasRead stream (Step.send at r) h = h
  Step-HasRead stream (Step.fail_to_send e at) h = h
  Step-HasRead stream (Step.end_of_range at idle) h = h

  Steps-HasRead :
      (stream : List (Received Request)) {s : Goroutines code} {n : ℕ} {t : Goroutines code}
      → Steps code s n t
      → HasRead stream s.reader
      → HasRead stream t.reader
  Steps-HasRead stream here h = h
  Steps-HasRead stream (next path step) h = Step-HasRead stream step (Steps-HasRead stream path h)

  -- A message of the stream makes the reader panic.
  pub record IsFatal (stream : List (Received Request)) (p : Panic) : Type 0 where
    pub before : List (Received Request)
    pub fatal : Received Request
    pub behind : List (Received Request)
    pub stands : stream ≡ before ++ fatal ∷ behind
    pub panics_with : code.read fatal ≡ crashes p

  -- The worker panics once it has got the first inputs of the stream.
  pub record IsOverrun (w : State) (stream : List (Received Request)) (p : Panic) : Type 0 where
    pub taken : List In
    pub later : List In
    pub came : taken ++ later ≡ inputs code stream
    pub stands : (process code w taken).ending ≡ panics p

  pub Steps-Crash :
      (w : State) (stream : List (Received Request)) {n : ℕ} {s : Goroutines code} {p : Panic}
      → Steps code (start code w stream) n s
      → Crash code s p
      → IsFatal stream p ⊎ IsOverrun w stream p
  Steps-Crash w stream path (reader_panics {r} {rest} at got) =
      let (before, e) = subst (HasRead stream) at (Steps-HasRead stream path ([], refl)) in
      inl (record { before = before; fatal = r; behind = rest; stands = e; panics_with = got })
  Steps-Crash w stream {s = s} path (worker_panics at) =
      let f = Steps-Refines code path (start-Refines code w stream) in
      inr (record {
        taken = f.taken;
        later = to_come code s.reader;
        came = f.came;
        stands = f.stands ∙ ap worker_ending at;
      })
