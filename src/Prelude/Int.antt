-- ===== src/Prelude/Int.antt =====
-- int64 values, as integers over the native numbers: `negsuc n` is -(n + 1).
use native.Mathlib.Decide.{ℕ_discrete}
use Prim.Native.Nat.{ℕ, suc}
use mathlib.Core.Bool.{Bool, true, false}

pub data ℤ : Type 0 where
  pos : ℕ → ℤ
  negsuc : ℕ → ℤ

unfoldable pub ℤ-discrete : Discrete ℤ
unfolding ℕ_discrete
ℤ-discrete = hlevel ℕ_discrete

abbrev pub same_int : ℤ → ℤ → Bool
same_int a b = elim (ℤ-discrete a b) [ yes _ ↦ true | no _ ↦ false ]

abbrev pub is_negative : ℤ → Bool
is_negative (pos n) = false
is_negative (negsuc n) = true

-- n ≤ 0
abbrev pub is_not_positive : ℤ → Bool
is_not_positive (pos (suc n)) = false
is_not_positive _ = true
