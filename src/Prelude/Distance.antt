-- ===== src/Prelude/Distance.antt =====
-- How far two counts are apart.
use mathlib.Core.Path.{◌≡◌}
use native.Mathlib.Omega.{arith}
use Prim.Native.Nat.{ℕ, suc, ◌+◌, ◌-◌}
use presto_on_k8s_operator.Prelude.Int.{ℤ, pos, negsuc}

unfoldable pub distance : ℤ → ℤ → ℕ
distance (pos a) (pos b) = (a - b) + (b - a)
distance (negsuc a) (negsuc b) = (a - b) + (b - a)
distance (pos a) (negsuc b) = suc (a + b)
distance (negsuc a) (pos b) = suc (a + b)

pub distance-zero : (a b : ℤ) → distance a b ≡ 0 → a ≡ b
unfolding distance
distance-zero (pos a) (pos b) h = ground arith
distance-zero (negsuc a) (negsuc b) h = ground arith
distance-zero (pos a) (negsuc b) h = ground arith
distance-zero (negsuc a) (pos b) h = ground arith

pub distance_self : (a : ℤ) → distance a a ≡ 0
unfolding distance
distance_self (pos a) = omega arith
distance_self (negsuc a) = omega arith
