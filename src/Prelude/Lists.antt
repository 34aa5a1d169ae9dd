-- ===== src/Prelude/Lists.antt =====
-- Lists measured by native numbers, under the library's names.
use Prim.Native.Nat.{ℕ, zero, suc, ◌+◌, ◌-◌, ◌≤◌}
use mathlib.Core.Path.{◌≡◌, refl, ap}
use mathlib.Core.Logic.{∥∥₁_map}
use mathlib.Core.List.{List, [], ◌∷◌, ◌++◌, map, Sublist, Sublistᴰ}
use native.Mathlib.Omega.{arith}

module _ {ℓ} {A : Type ℓ} where
  abbrev pub length : List A → ℕ
  length [] = 0
  length (x ∷ xs) = suc (length xs)

  abbrev pub take : ℕ → List A → List A
  take zero xs = []
  take (suc n) [] = []
  take (suc n) (x ∷ xs) = x ∷ take n xs

  abbrev pub drop : ℕ → List A → List A
  drop zero xs = xs
  drop (suc n) [] = []
  drop (suc n) (x ∷ xs) = drop n xs

  abbrev pub replicate : ℕ → A → List A
  replicate zero a = []
  replicate (suc n) a = a ∷ replicate n a

  pub length-append : (xs ys : List A) → length (xs ++ ys) ≡ length xs + length ys
  length-append [] ys = omega arith
  length-append (x ∷ xs) ys = omega (arith, length-append xs ys)

  pub take-append-drop : (n : ℕ) (xs : List A) → take n xs ++ drop n xs ≡ xs
  take-append-drop zero xs = refl
  take-append-drop (suc n) [] = refl
  take-append-drop (suc n) (x ∷ xs) = ap (◌∷◌ x) (take-append-drop n xs)

  pub length-take : (n : ℕ) (xs : List A) → n ≤ length xs → length (take n xs) ≡ n
  length-take zero xs h = refl
  length-take (suc n) [] h = elim h [ ]
  length-take (suc n) (x ∷ xs) h = ap suc (length-take n xs (omega arith))

  pub length-drop : (n : ℕ) (xs : List A) → length (drop n xs) ≡ length xs - n
  length-drop zero xs = omega arith
  length-drop (suc n) [] = omega arith
  length-drop (suc n) (x ∷ xs) = omega (arith, length-drop n xs)

  -- A predicate at each member of a list.
  abbrev pub All {κ} : (A → Type κ) → List A → Type κ
  All P [] = Unit
  All P (x ∷ xs) = P x × All P xs

  pub All-append {κ} : (P : A → Type κ) (xs ys : List A) → All P xs → All P ys → All P (xs ++ ys)
  All-append P [] ys hx hy = hy
  All-append P (x ∷ xs) ys hx hy = (hx.0, All-append P xs ys hx.1 hy)

  pub All-append_left {κ} : (P : A → Type κ) (xs ys : List A) → All P (xs ++ ys) → All P xs
  All-append_left P [] ys h = tt
  All-append_left P (x ∷ xs) ys h = (h.0, All-append_left P xs ys h.1)

  -- Go's `copy(dst, src)`: the new value of `dst`.
  abbrev pub copy : List A → List A → List A
  copy [] src = []
  copy (d ∷ dst) [] = d ∷ dst
  copy (d ∷ dst) (s ∷ src) = s ∷ copy dst src

  pub copy-replicate :
      (n : ℕ) (a : A) (src : List A) → n ≤ length src → copy (replicate n a) src ≡ take n src
  copy-replicate zero a src h = refl
  copy-replicate (suc n) a [] h = elim h [ ]
  copy-replicate (suc n) a (s ∷ src) h = ap (◌∷◌ s) (copy-replicate n a src (omega arith))

pub length-map {ℓ κ} :
    {A : Type ℓ} {B : Type κ} (f : A → B) (xs : List A) → length (map f xs) ≡ length xs
length-map f [] = refl
length-map f (x ∷ xs) = ap suc (length-map f xs)

module _ {ℓ κ} {A : Type ℓ} {B : Type κ} (f : A → B) where
  Sublistᴰ-map : {xs ys : List A} → Sublistᴰ xs ys → Sublistᴰ (map f xs) (map f ys)
  Sublistᴰ-map Sublistᴰ.slnil = Sublistᴰ.slnil
  Sublistᴰ-map (Sublistᴰ.cons s) = Sublistᴰ.cons (Sublistᴰ-map s)
  Sublistᴰ-map (Sublistᴰ.cons-cons e s) = Sublistᴰ.cons-cons (ap f e) (Sublistᴰ-map s)

  pub Sublist-map : {xs ys : List A} → Sublist xs ys → Sublist (map f xs) (map f ys)
  Sublist-map {xs} {ys} h = ∥∥₁_map {B = Sublistᴰ (map f xs) (map f ys)} h Sublistᴰ-map
