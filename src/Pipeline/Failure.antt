-- ===== src/Pipeline/Failure.antt =====
-- What is left of the handler when a response could not be sent: nobody receives the results.
use matchmaking_function_grp.Prelude.{ℕ, ◌≡◌, ◌≢◌, refl, ap, sym, ◌∙◌, some, List, [], ◌∷◌}
use matchmaking_function_grp.Outcome.{Error, Ending}
use matchmaking_function_grp.Pipeline.Defs.{
  Code, stopped, sending, finished, Goroutines, Step, Steps, here, next,
}
use matchmaking_function_grp.Pipeline.Standing.{to_come, inputs_step}

module _ {Request In Out Response State : Type 0} (code : Code Request In Out Response State) where
  -- The sender has given up, and the worker wants to send a result.
  pub record IsAbandoned (o : Out) (os : List Out) (e : Ending State) (x : Error)
      (s : Goroutines code) : Type 0 where
    pub sender_failed : s.sender ≡ finished (some x)
    pub worker_waits : s.worker ≡ sending (o ∷ os) e

  module _ {o : Out} {os : List Out} {e : Ending State} {x : Error} where
    -- Only the reader still moves, and not out of a write.
    Step-IsAbandoned :
        {s t : Goroutines code}
        → Step code s t
        → IsAbandoned o os e x s
        → IsAbandoned o os e x t
          × (to_come code t.reader ≡ to_come code s.reader)
          × (t.sent ≡ s.sent)
    Step-IsAbandoned (Step.receive {r} {rest} at got) a = (
      record { sender_failed = a.sender_failed; worker_waits = a.worker_waits },
      sym (ap (to_come code) at ∙ inputs_step code r rest _ got),
      refl,
    )
    Step-IsAbandoned (Step.pass {r} {rest} at got) a = (
      record { sender_failed = a.sender_failed; worker_waits = a.worker_waits },
      sym (ap (to_come code) at ∙ inputs_step code r rest _ got),
      refl,
    )
    Step-IsAbandoned (Step.stop {r} {rest} at got) a = (
      record { sender_failed = a.sender_failed; worker_waits = a.worker_waits },
      sym (ap (to_come code) at ∙ inputs_step code r rest _ got),
      refl,
    )
    Step-IsAbandoned (Step.take at idle) a = cc (sym idle ∙ a.worker_waits)
    Step-IsAbandoned (Step.notice at idle) a = cc (sym idle ∙ a.worker_waits)
    Step-IsAbandoned (Step.hand_over at idle) a = cc (sym idle ∙ a.sender_failed)
    Step-IsAbandoned (Step.select at) a = cc (sym at ∙ a.worker_waits)
    Step-IsAbandoned (Step.send at r) a = cc (sym at ∙ a.sender_failed)
    Step-IsAbandoned (Step.fail_to_send y at) a = cc (sym at ∙ a.sender_failed)
    Step-IsAbandoned (Step.end_of_range at idle) a = cc (sym idle ∙ a.sender_failed)

    pub Steps-IsAbandoned :
        {s : Goroutines code} {n : ℕ} {t : Goroutines code}
        → Steps code s n t
        → IsAbandoned o os e x s
        → IsAbandoned o os e x t
          × (to_come code t.reader ≡ to_come code s.reader)
          × (t.sent ≡ s.sent)
    Steps-IsAbandoned here a = (a, refl, refl)
    Steps-IsAbandoned (next path step) a =
        let (b, same, sent) = Steps-IsAbandoned path a in
        let (c, same', sent') = Step-IsAbandoned step b in (c, same' ∙ same, sent' ∙ sent)

    -- With an input still to come, the reader never stops.
    pub Steps-never_stops :
        {s : Goroutines code} {n : ℕ} {t : Goroutines code}
        → Steps code s n t
        → IsAbandoned o os e x s
        → to_come code s.reader ≢ []
        → t.reader ≢ stopped
    Steps-never_stops path a some_input h =
        let (b, same, sent) = Steps-IsAbandoned path a in
        some_input (sym same ∙ ap (to_come code) h)
