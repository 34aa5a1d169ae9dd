-- ===== src/Pipeline/Standing.antt =====
-- Where the goroutines stand: what is to come, what is on its way, and what was answered.
use matchmaking_function_grp.Prelude.{◌≡◌, refl, ap, Option, none, some, List, [], ◌∷◌, ◌++◌, map}
use mathlib.Core.List.{head?}
use matchmaking_function_grp.Outcome.{Ending, returns}
use matchmaking_function_grp.Pipeline.Defs.{
  Received, Read, Code, Reader, receiving, writing, stopped, Worker, about_to_send, selecting,
  sending, closed, Sender, ranging, responding, finished, read_input, inputs,
}

-- Results that were written to the channel, or are about to be.
abbrev pub pending : {Out State : Type 0} → Worker Out State → List Out
pending (sending os e) = os
pending (selecting w) = []
pending (closed w) = []

abbrev pub in_flight : {Out : Type 0} → Sender Out → List Out
in_flight (responding o) = o ∷ []
in_flight ranging = []
in_flight (finished e) = []

pub about_to_send-pending :
    {Out State : Type 0} (w : Worker Out State) → about_to_send w ≡ head? (pending w)
about_to_send-pending (sending [] e) = refl
about_to_send-pending (sending (o ∷ os) e) = refl
about_to_send-pending (selecting w) = refl
about_to_send-pending (closed w) = refl

abbrev pub head_or : {A : Type 0} → List A → Option A → Option A
head_or [] next = next
head_or (x ∷ xs) next = some x

-- How the worker would stand with no more inputs.
abbrev pub worker_ending : {Out State : Type 0} → Worker Out State → Ending State
worker_ending (sending os e) = e
worker_ending (selecting w) = returns w
worker_ending (closed w) = returns w

abbrev pub HasFailed : {Out : Type 0} → Sender Out → Type 0
HasFailed (finished (some e)) = Unit
HasFailed s = ⊥

module _ {Request In Out Response State : Type 0} (code : Code Request In Out Response State) where
  -- What the worker has still to get.
  abbrev pub to_come : Reader Request In → List In
  to_come (receiving stream) = inputs code stream
  to_come (writing i stream) = i ∷ inputs code stream
  to_come stopped = []

  -- A response for each result, in order; `next` is the result behind them.
  abbrev pub Answers : List Out → Option Out → List Response → Type 0
  Answers [] next [] = Unit
  Answers [] next (r ∷ rs) = ⊥
  Answers (o ∷ os) next [] = ⊥
  Answers (o ∷ os) next (r ∷ rs) = code.IsResponse o (head_or os next) r × Answers os next rs

  -- The worker makes one more result.
  Answers-later :
      (os : List Out) (next : Option Out) (rs : List Response)
      → Answers os none rs
      → Answers os next rs
  Answers-later [] next [] h = tt
  Answers-later [] next (r ∷ rs) h = absurd h
  Answers-later (o ∷ os) next [] h = absurd h
  Answers-later (o ∷ []) next (r ∷ rs) h =
      (code.IsResponse-later o next r h.0, Answers-later [] next rs h.1)
  Answers-later (o ∷ p ∷ os) next (r ∷ rs) h = (h.0, Answers-later (p ∷ os) next rs h.1)

  pub Answers-more :
      (os : List Out) (rs : List Response) (lost flying more : List Out)
      → Answers os (head? (lost ++ (flying ++ []))) rs
      → Answers os (head? (lost ++ (flying ++ more))) rs
  Answers-more os rs [] [] more h = Answers-later os (head? more) rs h
  Answers-more os rs [] (x ∷ flying) more h = h
  Answers-more os rs (x ∷ lost) flying more h = h

  pub Answers-snoc :
      {o : Out} {r : Response} (next : Option Out) (os : List Out) (rs : List Response)
      → Answers os (some o) rs
      → code.IsResponse o next r
      → Answers (os ++ o ∷ []) next (rs ++ r ∷ [])
  Answers-snoc next [] [] h a = (a, tt)
  Answers-snoc next [] (r ∷ rs) h a = absurd h
  Answers-snoc next (o ∷ os) [] h a = absurd h
  Answers-snoc next (o ∷ []) (r ∷ rs) h a = (h.0, Answers-snoc next [] rs h.1 a)
  Answers-snoc next (o ∷ p ∷ os) (r ∷ rs) h a = (h.0, Answers-snoc next (p ∷ os) rs h.1 a)

  -- Where each result, with the one that follows it, has one response only.
  abbrev pub Determines : (Out → Response) → List Out → Option Out → Type 0
  Determines f [] next = Unit
  Determines f (o ∷ os) next =
      ((r : Response) → code.IsResponse o (head_or os next) r → r ≡ f o) × Determines f os next

  pub Answers-map :
      (f : Out → Response) (os : List Out) (next : Option Out) (rs : List Response)
      → Determines f os next
      → Answers os next rs
      → rs ≡ map f os
  Answers-map f [] next [] one h = refl
  Answers-map f [] next (r ∷ rs) one h = absurd h
  Answers-map f (o ∷ os) next [] one h = absurd h
  Answers-map f (o ∷ os) next (r ∷ rs) one h = cc (one.0 r h.0, Answers-map f os next rs one.1 h.1)

  pub always-Determines :
      (f : Out → Response)
      → ((o : Out) (next : Option Out) (r : Response) → code.IsResponse o next r → r ≡ f o)
      → (os : List Out) (next : Option Out) → Determines f os next
  always-Determines f one [] next = tt
  always-Determines f one (o ∷ os) next = (one o (head_or os next), always-Determines f one os next)

  pub inputs_step :
      (r : Received Request) (rest : List (Received Request)) (x : Read In)
      → code.read r ≡ x
      → inputs code (r ∷ rest) ≡ read_input code x (inputs code rest)
  inputs_step r rest x h = ap (λ y. read_input code y (inputs code rest)) h
