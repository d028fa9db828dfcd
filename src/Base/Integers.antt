-- ===== src/Base/Integers.antt =====
-- Go's signed int, as far as it is compared.
use Prim.Native.Nat.{ℕ}
use mathlib.Core.Path.{◌≡◌}
use mathlib.Core.Bool.{Bool, true, false}
use native.Mathlib.Omega.{arith}
use package.grpcapi.Base.Tests.{ltb}

pub data ℤ : Type 0 where
  pos negsuc : ℕ → ℤ

abbrev pub ltz : ℤ → ℤ → Bool
ltz (pos m) (pos n) = ltb m n
ltz (pos m) (negsuc n) = false
ltz (negsuc m) (pos n) = true
ltz (negsuc m) (negsuc n) = ltb n m

-- Not going backwards is transitive.
pub ltz_trans : (a b c : ℤ) → ltz b a ≡ false → ltz c b ≡ false → ltz c a ≡ false
ltz_trans (pos a) (pos b) (pos c) h k = ground arith
ltz_trans (pos a) (pos b) (negsuc c) h k = cc
ltz_trans (pos a) (negsuc b) c h k = cc
ltz_trans (negsuc a) (pos b) (pos c) h k = ground arith
ltz_trans (negsuc a) (pos b) (negsuc c) h k = cc
ltz_trans (negsuc a) (negsuc b) (pos c) h k = ground arith
ltz_trans (negsuc a) (negsuc b) (negsuc c) h k = ground arith
