-- ===== src/Common/Ints.antt =====
-- The signed integers of the sources, and the casts between them and the unsigned ones.
use Prim.Native.Nat.{ℕ, ◌-◌, ◌^◌}
use mathlib.Core.Bool.{Bool, true, false}
use live_cdn.Common.Tests.{ltb, leb, if◌then◌else◌}

pub data ℤ : Type 0 where
  pos : ℕ → ℤ
  negsuc : ℕ → ℤ

abbrev pub leℤ : ℤ → ℤ → Bool
leℤ (pos m) (pos n) = leb m n
leℤ (pos m) (negsuc n) = false
leℤ (negsuc m) (pos n) = true
leℤ (negsuc m) (negsuc n) = leb n m

-- An i32 `as u64`.
abbrev pub as_u64 : ℤ → ℕ
as_u64 (pos n) = n
as_u64 (negsuc n) = 2 ^ 64 - 1 - n

-- A u32 `as i32`.
abbrev pub as_i32 : ℕ → ℤ
as_i32 n = if ltb n (2 ^ 31) then pos n else negsuc (2 ^ 32 - 1 - n)
