-- ===== src/Pipeline/Runs.antt =====
-- Runs of the worker: one more input, and the results as they are answered.
use matchmaking_function_grp.Prelude.{◌≡◌, refl, ap, sym, ◌∙◌, List, [], ◌∷◌, ◌++◌}
use mathlib.Core.List.{append-nil, append_assoc}
use matchmaking_function_grp.Outcome.{Ending, returns, panics, running, Run, return, and_then}
use matchmaking_function_grp.Pipeline.Defs.{Code, process}

pub returns_injective : {A : Type 0} {a b : A} → ◌≡◌ {A = Ending A} (returns a) (returns b) → a ≡ b
returns_injective h = cc

pub and_then-return :
    {B A : Type 0} (sent : List B) (e : Ending A)
    → and_then (record { sent = sent; ending = e }) (λ a. return a)
      ≡ record { sent = sent; ending = e }
and_then-return sent (returns a) = λ i. record { sent = append-nil sent i; ending = returns a }
and_then-return sent (panics p) = refl
and_then-return sent running = refl

-- If `g` does what `f` does and then `last`, so it is behind any run.
pub and_then-snoc :
    {B A C : Type 0} (sent : List B) (e : Ending A) (f g : A → Run B C) (last : Run B C) {c : C}
    → ((a : A)
        → (f a).ending ≡ returns c
        → g a ≡ record { sent = (f a).sent ++ last.sent; ending = last.ending })
    → (and_then (record { sent = sent; ending = e }) f).ending ≡ returns c
    → and_then (record { sent = sent; ending = e }) g ≡ record {
      sent = (and_then (record { sent = sent; ending = e }) f).sent ++ last.sent;
      ending = last.ending;
    }
and_then-snoc sent (returns a) f g last same h =
    ap (λ (x : Run _ _). record { sent = sent ++ x.sent; ending = x.ending }) (same a h)
    ∙ ap (λ xs. record { sent = xs; ending = last.ending })
        (sym (append_assoc sent (f a).sent last.sent))
and_then-snoc sent (panics p) f g last same h = cc
and_then-snoc sent running f g last same h = cc

module _ {A : Type 0} {xs : List A} (answered lost flying waiting : List A) where
  pub more_made :
      (more : List A)
      → xs ≡ answered ++ (lost ++ (flying ++ waiting))
      → waiting ≡ []
      → xs ++ more ≡ answered ++ (lost ++ (flying ++ more))
  more_made more h e = rw (h, e) (simp (append_assoc, append-nil))

  pub one_answered :
      {a : A}
      → xs ≡ answered ++ (lost ++ (flying ++ waiting))
      → lost ≡ []
      → flying ≡ a ∷ []
      → xs ≡ (answered ++ a ∷ []) ++ waiting
  one_answered h e f = rw (h, e, f) (simp (append_assoc))

  pub all_answered :
      xs ≡ answered ++ (lost ++ (flying ++ waiting))
      → lost ≡ []
      → flying ≡ []
      → waiting ≡ []
      → xs ≡ answered
  all_answered h e f g = rw (h, e, f, g) (append-nil answered)

  pub one_lost :
      {a : A}
      → xs ≡ answered ++ (lost ++ (flying ++ waiting))
      → lost ≡ []
      → flying ≡ a ∷ []
      → xs ≡ answered ++ a ∷ waiting
  one_lost h e f = rw (h, e, f)

module _ {Request In Out Response State : Type 0} (code : Code Request In Out Response State) where
  pub process-snoc :
      (w w' : State) (is : List In) (i : In)
      → (process code w is).ending ≡ returns w'
      → process code w (is ++ i ∷ []) ≡ record {
        sent = (process code w is).sent ++ (code.work w' i).sent;
        ending = (code.work w' i).ending;
      }
  process-snoc w w' [] i h = and_then-return _ _ ∙ ap (λ v. code.work v i) (returns_injective h)
  process-snoc w w' (j ∷ is) i h =
      and_then-snoc (code.work w j).sent (code.work w j).ending (λ v. process code v is)
        (λ v. process code v (is ++ i ∷ [])) (code.work w' i) (λ v. process-snoc v w' is i) h
