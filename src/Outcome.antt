-- ===== src/Outcome.antt =====
-- How a piece of Go code ends, and what it sent on a channel before.
use matchmaking_function_grp.Prelude.{String, ◌≡◌, refl, ap, List, [], ◌∷◌, ◌++◌}

-- The run-time panics of the modelled code.
pub data Panic : Type 0 where
  nil_dereference index_out_of_range make_len_out_of_range nil_map_write : Panic

-- The codes of google.golang.org/grpc/codes that the program names.
pub data Code : Type 0 where
  invalid_argument internal unauthenticated permission_denied : Code

-- A Go `error`: a gRPC status or an error with a text.
pub data Error : Type 0 where
  status : Code → String → Error
  other : String → Error

-- What a call that returns `(A, error)` does.
pub data Result (A : Type 0) : Type 0 where
  ok : A → Result A
  err : Error → Result A
  panic : Panic → Result A

infixl 5 ◌>>=◌ ◌>>◌
abbrev pub ◌>>=◌ : {A B : Type 0} → Result A → (A → Result B) → Result B
ok a >>= f = f a
err e >>= f = err e
panic p >>= f = panic p

-- A chain of calls succeeds only if each of them does.
pub >>=-eq-ok :
    {A B : Type 0} (first : Result A) (next : A → Result B) {value : B}
    → first >>= next ≡ ok value
    → (found : A) × (first ≡ ok found) × (next found ≡ ok value)
>>=-eq-ok (panic p) next h = cc
>>=-eq-ok (err e) next h = cc
>>=-eq-ok (ok found) next h = (found, refl, h)

abbrev pub ◌>>◌ : {B : Type 0} → Result (Unit {0}) → Result B → Result B
m >> k = m >>= λ _. k

-- The end of a loop that sends on a channel. `running` means that the fuel ran out.
pub data Ending (A : Type 0) : Type 0 where
  returns : A → Ending A
  panics : Panic → Ending A
  running : Ending A

-- What was sent on the channel, oldest first, and the end.
pub record Run (B A : Type 0) : Type 0 where
  pub sent : List B
  pub ending : Ending A

module _ {B A : Type 0} where
  abbrev pub return : A → Run B A
  return a = record { sent = []; ending = returns a }

  abbrev pub fail : Panic → Run B A
  fail p = record { sent = []; ending = panics p }

  abbrev pub out_of_fuel : Run B A
  out_of_fuel = record { sent = []; ending = running }

  -- `results <- b`, and then the rest
  abbrev pub send : B → Run B A → Run B A
  send b r = record { sent = b ∷ r.sent; ending = r.ending }

-- Go on from where a run returned.
abbrev after_ending : {B A C : Type 0} → List B → Ending A → (A → Run B C) → Run B C
after_ending sent (returns a) f = let r = f a in record { sent = sent ++ r.sent; ending = r.ending }
after_ending sent (panics p) f = record { sent = sent; ending = panics p }
after_ending sent running f = record { sent = sent; ending = running }

abbrev pub and_then : {B A C : Type 0} → Run B A → (A → Run B C) → Run B C
and_then r f = after_ending r.sent r.ending f

pub and_then-returns :
    {B A C : Type 0} (r : Run B A) (f : A → Run B C) (a : A)
    → r.ending ≡ returns a
    → and_then r f ≡ record { sent = r.sent ++ (f a).sent; ending = (f a).ending }
and_then-returns r f a h = ap (λ e. after_ending r.sent e f) h

abbrev pub map_ending : {A B : Type 0} → (A → B) → Ending A → Ending B
map_ending f (returns a) = returns (f a)
map_ending f (panics p) = panics p
map_ending f running = running

-- The same run, seen through `f` where it returns.
abbrev pub map_run : {A B C : Type 0} → (A → C) → Run B A → Run B C
map_run f r = record { sent = r.sent; ending = map_ending f r.ending }

module _ {A B C D : Type 0} (f : C → D) (next : A → Run B C) (next' : A → Run B D)
    (same : (a : A) → next' a ≡ map_run f (next a)) where
  map_run-after_ending :
      (sent : List B) (e : Ending A)
      → after_ending sent e next' ≡ map_run f (after_ending sent e next)
  map_run-after_ending sent (returns a) =
      ap (λ (x : Run B D). record { sent = sent ++ x.sent; ending = x.ending }) (same a)
  map_run-after_ending sent (panics p) = refl
  map_run-after_ending sent running = refl

  pub map_run-and_then : (r : Run B A) → and_then r next' ≡ map_run f (and_then r next)
  map_run-and_then r = map_run-after_ending r.sent r.ending

pub map_ending-returns :
    {A C : Type 0} (f : A → C) (e : Ending A) {c : C}
    → map_ending f e ≡ returns c
    → (a : A) × (e ≡ returns a) × (f a ≡ c)
map_ending-returns f (returns a) h = (a, refl, cc)
map_ending-returns f (panics p) h = cc
map_ending-returns f running h = cc
