-- ===== src/Prelude/Int.antt =====
-- Signed integers over the native numbers: Go's int32 and int64 values, which the operator only
-- copies, compares for equality and prints.
use Prim.Native.Nat.{ℕ}
use mathlib.Core.Path.{◌≡◌}
use mathlib.Core.Logic.{◌↔◌}
use mathlib.Core.Bool.{Bool, true, false}
use native.Mathlib.Omega.{arith}
use presto_on_k8s_operator.Prelude.Tests.{◌==◌ as nat_eq}

-- `negsuc n` is -(n + 1).
pub data ℤ : Type 0 where
  pos : ℕ → ℤ
  negsuc : ℕ → ℤ

infix 50 ◌==◌
abbrev pub ◌==◌ : ℤ → ℤ → Bool
pos a == pos b = nat_eq a b
negsuc a == negsuc b = nat_eq a b
_ == _ = false

pub ==_iff : (a b : ℤ) → ((a == b) ≡ true) ↔ (a ≡ b)
==_iff (pos a) (pos b) = ground arith
==_iff (pos a) (negsuc b) = ground arith
==_iff (negsuc a) (pos b) = ground arith
==_iff (negsuc a) (negsuc b) = ground arith
