-- ===== src/Base/Int.antt =====
-- Signed integers, where the source only compares them.
use Prim.Native.Nat.{ℕ}
use mathlib.Core.Bool.{Bool, false}
use relayswarm.Base.Tests.{◌==◌}

-- `negsuc n` is -(n + 1).
pub data ℤ : Type 0 where
  pos : ℕ → ℤ
  negsuc : ℕ → ℤ

abbrev pub int_eq : ℤ → ℤ → Bool
int_eq (pos m) (pos n) = m == n
int_eq (negsuc m) (negsuc n) = m == n
int_eq _ _ = false
