-- ===== src/Prelude/Int.antt =====
-- Go's `int`, 64 bits wide: an integer of the model, with the wrap-around of `*` written out.
use Prim.Native.Nat.{ℕ, zero, suc, ◌+◌, ◌-◌, ◌*◌, ◌%◌, ◌^◌, ◌≤◌, ◌<◌}
use mathlib.Core.Path.{◌≡◌}
use mathlib.Core.Bool.{Bool, true, false}
use native.Mathlib.Omega.{arith}
use matchmaking_function_grp.Prelude.Tests.{ltb, ◌==◌, if◌then◌else◌}

-- `negsuc n` is -(n + 1).
pub data ℤ : Type 0 where
  pos : ℕ → ℤ
  negsuc : ℕ → ℤ

abbrev neg : ℕ → ℤ
neg zero = pos 0
neg (suc n) = negsuc n

infixl 70 ◌*ℤ◌
abbrev pub ◌*ℤ◌ : ℤ → ℤ → ℤ
pos a *ℤ pos b = pos (a * b)
pos a *ℤ negsuc b = neg (a * suc b)
negsuc a *ℤ pos b = neg (suc a * b)
negsuc a *ℤ negsuc b = pos (suc a * suc b)

abbrev pub ltb_ℤ : ℤ → ℤ → Bool
ltb_ℤ (pos a) (pos b) = ltb a b
ltb_ℤ (pos a) (negsuc b) = false
ltb_ℤ (negsuc a) (pos b) = true
ltb_ℤ (negsuc a) (negsuc b) = ltb b a

abbrev pub is_zero : ℤ → Bool
is_zero (pos n) = n == 0
is_zero (negsuc n) = false

-- The integer that a 64-bit pattern stands for.
abbrev to_signed : ℕ → ℤ
to_signed m = if ltb m (2 ^ 63) then pos m else negsuc (2 ^ 64 - 1 - m)

unfoldable pub wrap_int : ℤ → ℤ
wrap_int (pos n) = to_signed (n % 2 ^ 64)
wrap_int (negsuc n) = to_signed (2 ^ 64 - 1 - n % 2 ^ 64)

unfoldable pub mul_int : ℤ → ℤ → ℤ
unfolding wrap_int
mul_int a b = wrap_int (a *ℤ b)

pub mul_int-pos : (a b : ℕ) → a * b < 2 ^ 63 → mul_int (pos a) (pos b) ≡ pos (a * b)
unfolding mul_int
mul_int-pos a b h = ground arith

abbrev pub pos_part : ℤ → ℕ
pos_part (pos n) = n
pos_part (negsuc n) = 0

abbrev pub neg_part : ℤ → ℕ
neg_part (pos n) = 0
neg_part (negsuc n) = suc n

infix 50 ◌≤ℤ◌
abbrev pub ◌≤ℤ◌ : ℤ → ℤ → Type 0
a ≤ℤ b = pos_part a + neg_part b ≤ pos_part b + neg_part a

pub ltb_ℤ→le : (a b : ℤ) → ltb_ℤ b a ≡ false → a ≤ℤ b
ltb_ℤ→le a b h = ground arith

pub le→ltb_ℤ : (a b : ℤ) → a ≤ℤ b → ltb_ℤ b a ≡ false
le→ltb_ℤ a b h = ground arith

-- The range of `int`.
abbrev pub IsInt : ℤ → Type 0
IsInt (pos n) = n < 2 ^ 63
IsInt (negsuc n) = n < 2 ^ 63

wrap_int-IsInt : (z : ℤ) → IsInt z → wrap_int z ≡ z
unfolding wrap_int
wrap_int-IsInt (pos n) h = ground arith
wrap_int-IsInt (negsuc n) h = ground arith

pub mul_int-IsInt : (a b : ℤ) → IsInt (a *ℤ b) → mul_int a b ≡ a *ℤ b
unfolding mul_int
mul_int-IsInt a b h = wrap_int-IsInt (a *ℤ b) h
