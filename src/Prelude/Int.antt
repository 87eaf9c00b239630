-- ===== src/Prelude/Int.antt =====
-- Go's signed `int` and `time.Duration`, with the tests that the program makes on them.
use Prim.Native.Nat.{ℕ, compare, Ordering}
use mathlib.Core.Bool.{Bool, true, false}

-- `negsuc n` is -(n + 1).
pub data ℤ : Type 0 where
  pos : ℕ → ℤ
  negsuc : ℕ → ℤ

-- x == 0
abbrev pub is_zero : ℤ → Bool
is_zero (pos n) = elim (compare n 0) [ Ordering.eq ↦ true | _ ↦ false ]
is_zero (negsuc n) = false

-- 0 < x
abbrev pub is_positive : ℤ → Bool
is_positive (pos n) = elim (compare 0 n) [ Ordering.lt ↦ true | _ ↦ false ]
is_positive (negsuc n) = false

-- x < 0
abbrev pub is_negative : ℤ → Bool
is_negative (pos n) = false
is_negative (negsuc n) = true

-- x == y
abbrev pub int_eq : ℤ → ℤ → Bool
int_eq (pos m) (pos n) = elim (compare m n) [ Ordering.eq ↦ true | _ ↦ false ]
int_eq (negsuc m) (negsuc n) = elim (compare m n) [ Ordering.eq ↦ true | _ ↦ false ]
int_eq _ _ = false

-- x <= y
abbrev pub le_int : ℤ → ℤ → Bool
le_int (pos m) (pos n) = elim (compare m n) [ Ordering.gt ↦ false | _ ↦ true ]
le_int (pos m) (negsuc n) = false
le_int (negsuc m) (pos n) = true
le_int (negsuc m) (negsuc n) = elim (compare n m) [ Ordering.gt ↦ false | _ ↦ true ]
