-- ===== src/Base/Int.antt =====
-- Signed integers, as plain data.
use Prim.Native.Nat.{ℕ}
use mathlib.Core.Path.{◌≡◌, ap}
use mathlib.Core.Logic.{◌↔◌}
use mathlib.Core.Bool.{Bool, true, false}
use native.Mathlib.Omega.{arith}
use dealership_agent.Base.Tests.{◌==◌, ==_iff}

-- `negsuc n` is -(n + 1).
pub data ℤ : Type 0 where
  pos : ℕ → ℤ
  negsuc : ℕ → ℤ

-- a == b
unfoldable pub same_int : ℤ → ℤ → Bool
same_int (pos m) (pos n) = m == n
same_int (negsuc m) (negsuc n) = m == n
same_int _ _ = false

pub same_int_iff : (a b : ℤ) → (same_int a b ≡ true) ↔ (a ≡ b)
unfolding same_int
same_int_iff (pos m) (pos n) = (λ h. ap pos ((==_iff m n).0 h), λ h. ground arith)
same_int_iff (negsuc m) (negsuc n) = (λ h. ap negsuc ((==_iff m n).0 h), λ h. ground arith)
same_int_iff (pos m) (negsuc n) = (λ h. ground arith, λ h. ground arith)
same_int_iff (negsuc m) (pos n) = (λ h. ground arith, λ h. ground arith)
