-- ===== src/Start/Ends.antt =====
-- How the process of main.go ends, in whatever order its goroutines run.
use matchmaking_function_grp.Prelude.{
  ℕ, ◌≡◌, ◌≢◌, ◌⊎◌, inl, inr, refl, subst, String, Option, none, some,
}
use matchmaking_function_grp.Outcome.{Result, ok, Error}
use matchmaking_function_grp.Common.Tracing.{Sdk}
use matchmaking_function_grp.Start.Exit.{Exit, exits_with, after_signal, with_provider, exit_of}
use matchmaking_function_grp.Start.Process.{
  ServeAt, MainAt, Running, Process, running, exited, new_provider, Move, Moves, here, next, set_up,
}

module _ (sdk : Sdk) (lower : String → String) (lookup_env : String → Option String)
    (listen : Result (Unit {0})) (shutdown : sdk.TracerProvider → Result (Unit {0})) where
  abbrev Provider : Type 0
  Provider = sdk.TracerProvider

  abbrev State : Type 0
  State = Running Provider

  abbrev MoveOf : State → Process Provider → Type 0
  MoveOf s t = Move sdk lower lookup_env listen shutdown s t

  abbrev MovesOf : State → ℕ → Process Provider → Type 0
  MovesOf s n t = Moves sdk lower lookup_env listen shutdown s n t

  abbrev made : Result Provider
  made = new_provider sdk lower lookup_env listen shutdown

  -- What `main` has found out, and what is in `err` and in the global tracer provider then.
  abbrev pub Found : MainAt Provider → Option Error → Option Provider → Type 0
  Found MainAt.starting_metrics e global = Unit
  Found MainAt.opening_port e global = Unit
  Found MainAt.starting_server e global = listen ≡ ok tt
  Found MainAt.making_provider e global = listen ≡ ok tt
  Found (MainAt.testing_err none) e global = (listen ≡ ok tt) × (e ≢ none)
  Found (MainAt.testing_err (some p)) e global = (listen ≡ ok tt) × (made ≡ ok p)
  Found (MainAt.waiting p) e global = (listen ≡ ok tt) × (made ≡ ok p) × (global ≡ some p)
  Found (MainAt.shutting_down p) e global = (listen ≡ ok tt) × (made ≡ ok p) × (global ≡ some p)

  -- Calls are served on a port that was opened.
  abbrev pub Served : ServeAt → Type 0
  Served ServeAt.unborn = Unit
  Served ServeAt.serving = listen ≡ ok tt
  Served (ServeAt.testing_err e) = listen ≡ ok tt
  Served (ServeAt.ended e) = listen ≡ ok tt

  abbrev pub Stands : State → Type 0
  Stands s = Found s.main s.err s.global

  abbrev pub Keeps : State → Type 0
  Keeps s = Stands s × Served s.serve

  served : (v : ServeAt) → v ≢ ServeAt.unborn → Served v → listen ≡ ok tt
  served ServeAt.unborn n h = absurd (n refl)
  served ServeAt.serving n h = h
  served (ServeAt.testing_err e) n h = h
  served (ServeAt.ended e) n h = h

  pub at : (s : State) {m : MainAt Provider} → s.main ≡ m → Stands s → Found m s.err s.global
  at s e h = subst (λ x. Found x s.err s.global) e h

  -- An error in `err` changes nothing of it.
  Found-error :
      (m : MainAt Provider) (e : Option Error) (x : Error) (global : Option Provider)
      → Found m e global
      → Found m (some x) global
  Found-error MainAt.starting_metrics e x global h = tt
  Found-error MainAt.opening_port e x global h = tt
  Found-error MainAt.starting_server e x global h = h
  Found-error MainAt.making_provider e x global h = h
  Found-error (MainAt.testing_err none) e x global h = (h.0, λ f. cc f)
  Found-error (MainAt.testing_err (some p)) e x global h = h
  Found-error (MainAt.waiting p) e x global h = h
  Found-error (MainAt.shutting_down p) e x global h = h

  abbrev pub Holds : Process Provider → Type 0
  Holds (running s) = Keeps s
  Holds (exited e) =
      (e ≡ exit_of sdk lower lookup_env listen shutdown)
      ⊎ (e ≡ exits_with 1)
      ⊎ (e ≡ Exit.panics) × (listen ≡ ok tt)

  Move-Holds : {s : State} {t : Process Provider} → MoveOf s t → Keeps s → Holds t
  unfolding exit_of with_provider
  Move-Holds {s} (Move.start_metrics m) h = (tt, h.1)
  Move-Holds {s} (Move.metrics_fails m) h = inr (inl refl)
  Move-Holds {s} (Move.open_port m e) h = (e, h.1)
  Move-Holds {s} (Move.open_port_fails m e) h = inr (inl refl)
  Move-Holds {s} (Move.open_port_panics m e) h = inl (rw e refl)
  Move-Holds {s} (Move.start_server m) h = (at s m h.0, at s m h.0)
  Move-Holds {s} (Move.serve_fails e m) h =
      (Found-error s.main s.err e s.global h.0, subst Served m h.1)
  Move-Holds {s} (Move.serve_sees_error m e) h = inr (inl refl)
  Move-Holds {s} (Move.serve_sees_none m e) h = (h.0, subst Served m h.1)
  Move-Holds {s} (Move.handler_panics n) h = inr (inr (refl, served s.serve n h.1))
  Move-Holds {s} (Move.make_provider m e) h = ((at s m h.0, e), h.1)
  Move-Holds {s} (Move.make_provider_fails m e) h = ((at s m h.0, λ f. cc f), h.1)
  Move-Holds {s} (Move.make_provider_panics m e) h =
      let opened : listen ≡ ok tt = at s m h.0 in inl (rw (opened, e) refl)
  Move-Holds {s} (Move.main_sees_error m e) h = inr (inl refl)
  Move-Holds {s} (Move.main_sees_none m e) h = let f = at s m h.0 in ((f.0, f.1, refl), h.1)
  Move-Holds {s} (Move.receive_signal m) h = (at s m h.0, h.1)
  Move-Holds {s} (Move.shut_down m) h = let (opened, e, g) = at s m h.0 in inl (rw (opened, e) refl)

  pub Moves-Holds : {s : State} {n : ℕ} {t : Process Provider} → MovesOf s n t → Keeps s → Holds t
  Moves-Holds here h = h
  Moves-Holds (next path step) h = Move-Holds step (Moves-Holds path h)

  -- If the port opens and the tracer provider is made, then for every error with which `Serve`
  -- can return some steps lead to where `main` waits for a signal and the goroutine of `Serve`
  -- has returned without an exit; two more, the signal and the shutdown of the tracer provider,
  -- end the process as this shutdown gives.
  pub process-loses_error :
      (p : Provider) (x : Error)
      → listen ≡ ok tt
      → new_provider sdk lower lookup_env listen shutdown ≡ ok p
      → (k : ℕ) × (s : State) × MovesOf set_up k (running s)
        × (s.main ≡ MainAt.waiting p)
        × (s.serve ≡ ServeAt.ended x)
        × MovesOf s 2 (exited (after_signal sdk shutdown p))
  process-loses_error p x opened provided = (
    _,
    _,
    next
        (next
          (next
            (next
              (next (next (next here (Move.start_metrics refl)) (Move.open_port refl opened))
                (Move.start_server refl))
              (Move.serve_fails x refl))
            (Move.make_provider refl provided))
          (Move.serve_sees_none refl refl))
        (Move.main_sees_none refl refl),
    refl,
    refl,
    next (next here (Move.receive_signal refl)) (Move.shut_down refl),
  )
