-- ===== src/Base/Integers.antt =====
-- The integers that the source gives to a test of the sign.
use Prim.Native.Nat.{ℕ}
use mathlib.Core.Bool.{Bool, true}
use sched_forge.Base.Tests.{ltb, ◌==◌}

pub data ℤ : Type 0 where
  pos : ℕ → ℤ
  negsuc : ℕ → ℤ

-- `z <= 0`.
abbrev pub is_nonpositive : ℤ → Bool
is_nonpositive (pos n) = n == 0
is_nonpositive (negsuc n) = true

-- `z < m`.
abbrev pub is_below : ℤ → ℕ → Bool
is_below (pos n) m = ltb n m
is_below (negsuc n) m = true

-- `max(0, z)`.
abbrev pub natural : ℤ → ℕ
natural (pos n) = n
natural (negsuc n) = 0
