-- ===== src/Base/Int.antt =====
-- Go's `int`, without its bounds: a number that may be negative.
use lets_proxy.Base.Tests.{◌==◌}
use Prim.Native.Nat.{ℕ, zero, suc}
use mathlib.Core.Bool.{Bool, true, false}
use mathlib.Core.Path.{◌≡◌, ap}
use mathlib.Core.Logic.{◌↔◌}
use native.Mathlib.Omega.{arith}

pub data ℤ : Type 0 where
  pos : ℕ → ℤ
  negsuc : ℕ → ℤ

-- Are the numbers equal?
unfoldable pub int_eq : ℤ → ℤ → Bool
int_eq (pos m) (pos n) = m == n
int_eq (negsuc m) (negsuc n) = m == n
int_eq _ _ = false

-- The number after this one.
unfoldable pub increment : ℤ → ℤ
increment (pos n) = pos (suc n)
increment (negsuc zero) = pos 0
increment (negsuc (suc n)) = negsuc n

pub pos-injective : {m n : ℕ} → pos m ≡ pos n → m ≡ n
pos-injective e = cc

negsuc-injective : {m n : ℕ} → negsuc m ≡ negsuc n → m ≡ n
negsuc-injective e = cc

pub int_eq_iff : (a b : ℤ) → (int_eq a b ≡ true) ↔ (a ≡ b)
unfolding int_eq
int_eq_iff (pos m) (pos n) = (λ h. ap pos (ground (arith, h)), λ e. ground (arith, pos-injective e))
int_eq_iff (negsuc m) (negsuc n) =
    (λ h. ap negsuc (ground (arith, h)), λ e. ground (arith, negsuc-injective e))
int_eq_iff (pos m) (negsuc n) = (λ h. cc, λ e. cc)
int_eq_iff (negsuc m) (pos n) = (λ h. cc, λ e. cc)
