-- ===== src/Base/Int.antt =====
-- Go's signed integers, where a sign can be seen.
use Prim.Native.Nat.{ℕ, zero, suc}
use mathlib.Core.Bool.{Bool, true, false}
use mathlib.Core.Path.{◌≡◌}
use mathlib.Core.Logic.{◌↔◌}
use native.Mathlib.Omega.{arith}
use go_dota.Base.Tests.{Eq, nat_beq, nat_beq_iff}

-- `negsuc n` is -(n + 1).
pub data ℤ : Type 0 where
  pos : ℕ → ℤ
  negsuc : ℕ → ℤ

-- n > 0
unfoldable pub is_positive : ℤ → Bool
is_positive (pos zero) = false
is_positive (pos (suc n)) = true
is_positive (negsuc n) = false

-- `if n <= 0 { n = d }`
unfoldable pub positive_or : ℤ → ℕ → ℕ
positive_or (pos zero) d = d
positive_or (pos (suc n)) d = suc n
positive_or (negsuc n) d = d

unfoldable pub int_beq : ℤ → ℤ → Bool
int_beq (pos n) (pos m) = nat_beq n m
int_beq (negsuc n) (negsuc m) = nat_beq n m
int_beq (pos n) (negsuc m) = false
int_beq (negsuc n) (pos m) = false

pub int_beq_iff : (a b : ℤ) → (int_beq a b ≡ true) ↔ (a ≡ b)
unfolding int_beq
int_beq_iff (pos n) (pos m) = ground (arith, nat_beq_iff n m)
int_beq_iff (negsuc n) (negsuc m) = ground (arith, nat_beq_iff n m)
int_beq_iff (pos n) (negsuc m) = ground arith
int_beq_iff (negsuc n) (pos m) = ground arith

instance abbrev pub int_eq : Eq ℤ
int_eq = record { beq = λ a b. int_beq a b; beq_iff = λ a b. int_beq_iff a b }
