-- ===== src/Base/Int.antt =====
-- Python's integers, where the program has negative ones: `negsuc n` is -(n + 1).
use Prim.Native.Nat.{ℕ}
use mathlib.Core.Bool.{Bool, true, false}
use anime_recommendation_eng.Base.Bools.{◌==◌}

pub data ℤ : Type 0 where
  pos : ℕ → ℤ
  negsuc : ℕ → ℤ

-- `n < 0`
abbrev pub is_negative : ℤ → Bool
is_negative (pos _) = false
is_negative (negsuc _) = true

-- `n in (-1, 1)`
abbrev pub is_unit : ℤ → Bool
is_unit (pos n) = n == 1
is_unit (negsuc n) = n == 0
