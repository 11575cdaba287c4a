-- ===== src/Common/Integers.antt =====
-- The signed integers of the program (`int`), over the native numbers, under the library's names.
use Prim.Native.Nat.{ℕ}
use mathlib.Core.Bool.{Bool, true, false}

pub data ℤ : Type 0 where
  pos : ℕ → ℤ
  negsuc : ℕ → ℤ

-- Whether a number is at least 0.
unfoldable pub is_nonneg : ℤ → Bool
is_nonneg (pos n) = true
is_nonneg (negsuc n) = false
