-- ===== src/Start/Returns.antt =====
-- That the process of main.go can always get to its end.
use matchmaking_function_grp.Prelude.{ℕ, suc, ◌≡◌, refl, subst, String, Option, none, some}
use matchmaking_function_grp.Outcome.{Result, ok, err, panic}
use matchmaking_function_grp.Common.Tracing.{Sdk}
use matchmaking_function_grp.Start.Exit.{Exit, with_provider, exit_of}
use matchmaking_function_grp.Start.Ends.{Stands, at, Moves-Holds}
use matchmaking_function_grp.Start.Process.{
  MainAt, Running, Process, running, exited, new_provider, Move, Moves, here, next, set_up,
}

module _ (sdk : Sdk) (lower : String → String) (lookup_env : String → Option String)
    (listen : Result (Unit {0})) (shutdown : sdk.TracerProvider → Result (Unit {0})) where
  abbrev Provider : Type 0
  Provider = sdk.TracerProvider

  abbrev State : Type 0
  State = Running Provider

  abbrev MoveOf : State → Process Provider → Type 0
  MoveOf s t = Move sdk lower lookup_env listen shutdown s t

  abbrev MovesOf : State → ℕ → Process Provider → Type 0
  MovesOf s n t = Moves sdk lower lookup_env listen shutdown s n t

  abbrev made : Result Provider
  made = new_provider sdk lower lookup_env listen shutdown

  abbrev StandsOf : State → Type 0
  StandsOf s = Stands sdk lower lookup_env listen shutdown s

  abbrev end : Exit
  end = exit_of sdk lower lookup_env listen shutdown

  -- A way to the end of the process.
  Leads : State → Type 0
  Leads s = (k : ℕ) × MovesOf s k (exited end)

  first :
      {s t : State} {n : ℕ} {u : Process Provider}
      → MoveOf s (running t)
      → MovesOf t n u
      → MovesOf s (suc n) u
  first step here = next here step
  first step (next path last) = next (first step path) last

  leads : {s t : State} → MoveOf s (running t) → Leads t → Leads s
  unfolding Leads
  leads step (k, path) = (suc k, first step path)

  ends : {s : State} {e : Exit} → MoveOf s (exited e) → e ≡ end → Leads s
  unfolding Leads
  ends {s} step h = (1, subst (λ x. MovesOf s 1 (exited x)) h (next here step))

  from_shutting_down :
      (s : State) (p : Provider) → s.main ≡ MainAt.shutting_down p → StandsOf s → Leads s
  unfolding exit_of with_provider
  from_shutting_down s p m h =
      let (opened, e, g) = at sdk lower lookup_env listen shutdown s m h in
      ends (Move.shut_down m) (rw (opened, e) refl)

  from_waiting : (s : State) (p : Provider) → s.main ≡ MainAt.waiting p → StandsOf s → Leads s
  from_waiting s p m h =
      leads (Move.receive_signal m)
        (from_shutting_down _ p refl (at sdk lower lookup_env listen shutdown s m h))

  from_testing :
      (s : State) (o : Option Provider)
      → s.main ≡ MainAt.testing_err o
      → s.err ≡ none
      → StandsOf s
      → Leads s
  from_testing s (some p) m g h =
      let f = at sdk lower lookup_env listen shutdown s m h in
      leads (Move.main_sees_none m g) (from_waiting _ p refl (f.0, f.1, refl))
  from_testing s none m g h = absurd ((at sdk lower lookup_env listen shutdown s m h).1 g)

  from_making :
      (s : State) (r : Result Provider)
      → s.main ≡ MainAt.making_provider
      → made ≡ r
      → StandsOf s
      → Leads s
  unfolding exit_of with_provider
  from_making s (ok p) m e h =
      leads (Move.make_provider m e)
        (from_testing _ (some p) refl refl (at sdk lower lookup_env listen shutdown s m h, e))
  from_making s (err x) m e h =
      let opened : listen ≡ ok tt = at sdk lower lookup_env listen shutdown s m h in
      leads (Move.make_provider_fails m e)
        (ends (Move.main_sees_error refl refl) (rw (opened, e) refl))
  from_making s (panic p) m e h =
      let opened : listen ≡ ok tt = at sdk lower lookup_env listen shutdown s m h in
      ends (Move.make_provider_panics m e) (rw (opened, e) refl)

  from_starting_server : (s : State) → s.main ≡ MainAt.starting_server → StandsOf s → Leads s
  from_starting_server s m h =
      leads (Move.start_server m)
        (from_making _ made refl refl (at sdk lower lookup_env listen shutdown s m h))

  from_opening :
      (s : State) (r : Result (Unit {0})) → s.main ≡ MainAt.opening_port → listen ≡ r → Leads s
  unfolding exit_of
  from_opening s (ok tt) m e = leads (Move.open_port m e) (from_starting_server _ refl e)
  from_opening s (err x) m e = ends (Move.open_port_fails m e) (rw e refl)
  from_opening s (panic p) m e = ends (Move.open_port_panics m e) (rw e refl)

  from_here : (s : State) (m : MainAt Provider) → s.main ≡ m → s.err ≡ none → StandsOf s → Leads s
  from_here s MainAt.starting_metrics m g h =
      leads (Move.start_metrics m) (from_opening _ listen refl refl)
  from_here s MainAt.opening_port m g h = from_opening s listen m refl
  from_here s MainAt.starting_server m g h = from_starting_server s m h
  from_here s MainAt.making_provider m g h = from_making s made m refl h
  from_here s (MainAt.testing_err o) m g h = from_testing s o m g h
  from_here s (MainAt.waiting p) m g h = from_waiting s p m h
  from_here s (MainAt.shutting_down p) m g h = from_shutting_down s p m h

  -- From whatever the process of main.go has got to, as long as `err` holds no error, some
  -- steps, among them a signal where `main` waits for one, lead to the exit that `main` has
  -- without its goroutines.
  pub process-Ends :
      (n : ℕ) (s : State)
      → MovesOf set_up n (running s)
      → s.err ≡ none
      → (k : ℕ) × MovesOf s k (exited (exit_of sdk lower lookup_env listen shutdown))
  unfolding Leads
  process-Ends n s path g =
      from_here s s.main refl g (Moves-Holds sdk lower lookup_env listen shutdown path (tt, tt)).0
