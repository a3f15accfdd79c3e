-- ===== src/Prelude/Int.antt =====
-- Python integers where the source only compares them and adds one.
use Prim.Native.Nat.{ℕ, zero, suc}
use mathlib.Core.Path.{◌≡◌, refl}
use mathlib.Core.Logic.{◌↔◌}
use mathlib.Core.Bool.{Bool, true, false}
use native.Mathlib.Omega.{arith}
use relay_shell.Prelude.Tests.{◌==◌}

-- `negsuc n` is -(n + 1).
pub data ℤ : Type 0 where
  pos : ℕ → ℤ
  negsuc : ℕ → ℤ

unfoldable pub int_eq : ℤ → ℤ → Bool
int_eq (pos a) (pos b) = a == b
int_eq (pos a) (negsuc b) = false
int_eq (negsuc a) (pos b) = false
int_eq (negsuc a) (negsuc b) = a == b

unfoldable pub int_suc : ℤ → ℤ
int_suc (pos a) = pos (suc a)
int_suc (negsuc zero) = pos 0
int_suc (negsuc (suc a)) = negsuc a

pub int_eq_iff : (a b : ℤ) → (int_eq a b ≡ true) ↔ (a ≡ b)
unfolding int_eq
int_eq_iff (pos a) (pos b) = ground arith
int_eq_iff (pos a) (negsuc b) = ground arith
int_eq_iff (negsuc a) (pos b) = ground arith
int_eq_iff (negsuc a) (negsuc b) = ground arith

pub int_suc-ne : (a : ℤ) → int_eq (int_suc a) a ≡ false
unfolding int_eq int_suc
int_suc-ne (pos a) = ground arith
int_suc-ne (negsuc zero) = refl
int_suc-ne (negsuc (suc a)) = ground arith
