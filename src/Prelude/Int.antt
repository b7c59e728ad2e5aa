-- ===== src/Prelude/Int.antt =====
-- Signed integers: `i32` and `i64` columns, and the casts between `u32` and `i32`.
use Prim.Native.Nat.{ℕ, ◌-◌, ◌<◌}
use mathlib.Core.Path.{◌≡◌}
use mathlib.Core.Bool.{Bool, true, false}
use native.Mathlib.Omega.{arith}
use free_box.Prelude.Tests.{ltb, if◌then◌else◌}

-- `negsuc n` is -(n + 1).
pub data ℤ : Type 0 where
  pos : ℕ → ℤ
  negsuc : ℕ → ℤ

-- `a < b` on the signed numbers.
abbrev pub lt_int : ℤ → ℤ → Bool
lt_int (pos a) (pos b) = ltb a b
lt_int (pos a) (negsuc b) = false
lt_int (negsuc a) (pos b) = true
lt_int (negsuc a) (negsuc b) = ltb b a

-- `n as i32` for a `u32`, and `i as u32` for an `i32`.
unfoldable pub as_i32 : ℕ → ℤ
as_i32 n = if ltb n 2147483648 then pos n else negsuc (4294967295 - n)

unfoldable pub as_u32 : ℤ → ℕ
as_u32 (pos n) = n
as_u32 (negsuc n) = 4294967295 - n

-- The two casts give a `u32` back.
pub as_u32-as_i32 : (n : ℕ) → n < 4294967296 → as_u32 (as_i32 n) ≡ n
unfolding as_u32 as_i32
as_u32-as_i32 n h = ground arith
