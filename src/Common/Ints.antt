-- ===== src/Common/Ints.antt =====
-- Go's signed integers, where a sign can occur.
use Prim.Native.Nat.{ℕ, ◌+◌, ◌<◌, suc}
use mathlib.Core.Path.{◌≡◌}
use mathlib.Core.Bool.{Bool, false, ◌&&◌, ◌||◌}
use mathlib.Core.List.{List, [], ◌∷◌}
use native.Mathlib.Omega.{arith}
use dev_gate.Common.Tests.{ltb, leb}

-- `negsuc n` is -(n + 1).
pub data ℤ : Type 0 where
  pos : ℕ → ℤ
  negsuc : ℕ → ℤ

abbrev pub pos_part : ℤ → ℕ
pos_part (pos n) = n
pos_part (negsuc n) = 0

abbrev pub neg_part : ℤ → ℕ
neg_part (pos n) = 0
neg_part (negsuc n) = suc n

-- a < b and a ≤ b.
abbrev pub ltz : ℤ → ℤ → Bool
ltz a b = ltb (pos_part a + neg_part b) (pos_part b + neg_part a)

abbrev pub lez : ℤ → ℤ → Bool
lez a b = leb (pos_part a + neg_part b) (pos_part b + neg_part a)

abbrev pub eqz : ℤ → ℤ → Bool
eqz a b = lez a b && lez b a

-- Whether an integer is one of some numbers.
abbrev pub one_of : ℤ → List ℕ → Bool
one_of a [] = false
one_of a (n ∷ ns) = eqz a (pos n) || one_of a ns

pub pos_of_lez : (a : ℤ) → lez a (pos 0) ≡ false → 0 < pos_part a
pos_of_lez (pos n) h = ground arith
pos_of_lez (negsuc n) h = ground arith

pub pos_of_ltz : (a : ℤ) → ltz a (pos 1) ≡ false → 0 < pos_part a
pos_of_ltz (pos n) h = ground arith
pos_of_ltz (negsuc n) h = ground arith
