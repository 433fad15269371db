-- ===== src/Prelude/Ints.antt =====
-- Python's `int`, as far as the program compares it, and a `float` as its bit pattern.
use Prim.Native.Nat.{ℕ}
use mathlib.Core.Bool.{Bool, true, false}
use coda_node.Prelude.Tests.{ltb, leb}

-- `negsuc n` is -(n + 1).
pub data ℤ : Type 0 where
  pos : ℕ → ℤ
  negsuc : ℕ → ℤ

-- `a < b` and `a >= b` against an integer.
abbrev pub ltb_int : ℤ → ℤ → Bool
ltb_int (pos a) (pos b) = ltb a b
ltb_int (pos a) (negsuc b) = false
ltb_int (negsuc a) (pos b) = true
ltb_int (negsuc a) (negsuc b) = ltb b a

abbrev pub leb_int : ℤ → ℤ → Bool
leb_int (pos a) (pos b) = leb a b
leb_int (pos a) (negsuc b) = false
leb_int (negsuc a) (pos b) = true
leb_int (negsuc a) (negsuc b) = leb b a

-- An IEEE double is carried by its bits: the program passes floats on and does no arithmetic on
-- them except through the operations that `Qasm` takes as a parameter.
pub record Float : Type 0 where
  pub bits : ℕ

abbrev pub float_zero : Float
float_zero = record { bits = 0 }
