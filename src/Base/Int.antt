-- ===== src/Base/Int.antt =====
-- Signed results of C calls.
use Prim.Native.Nat.{ℕ, compare, Ordering}
use mathlib.Core.Bool.{Bool, true, false}

-- `negsuc n` is -(n + 1).
pub data ℤ : Type 0 where
  pos : ℕ → ℤ
  negsuc : ℕ → ℤ

-- Comparison of an `int` with a number that is not negative.
abbrev pub is_pos : ℤ → ℕ → Bool
is_pos (pos a) n = elim (compare a n) [ Ordering.eq ↦ true | _ ↦ false ]
is_pos (negsuc a) n = false

abbrev pub is_neg : ℤ → Bool
is_neg (pos a) = false
is_neg (negsuc a) = true
