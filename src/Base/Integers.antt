-- ===== src/Base/Integers.antt =====
-- The integers over the native numbers.
use Prim.Native.Nat.{ℕ}
use mathlib.Core.Bool.{Bool, false}
use truck.Base.Tests.{◌==◌, leb}

pub data ℤ : Type 0 where
  pos : ℕ → ℤ
  negsuc : ℕ → ℤ

-- Whether an integer is the key of a row.
abbrev pub is_key : ℤ → ℕ → Bool
is_key (pos n) k = k == n
is_key (negsuc n) k = false

-- The range of a 16-bit column.
abbrev pub is_small : ℤ → Bool
is_small (pos n) = leb n 32767
is_small (negsuc n) = leb n 32767
