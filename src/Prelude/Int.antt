-- ===== src/Prelude/Int.antt =====
-- Signed 64-bit integers as integers in range, with Rust's casts and wrapping sums.
use Prim.Native.Nat.{ℕ, ◌+◌, ◌-◌, ◌%◌, ◌^◌, ◌<◌}
use mathlib.Core.Path.{◌≡◌}
use mathlib.Core.Bool.{Bool, true, false}
use native.Mathlib.Omega.{arith}
use conreg.Prelude.Tests.{ltb, leb, nat_beq, if◌then◌else◌}

-- `negsuc n` is -(n + 1).
pub data ℤ : Type 0 where
  pos : ℕ → ℤ
  negsuc : ℕ → ℤ

abbrev pub two_31 : ℕ
two_31 = 2 ^ 31

abbrev pub two_32 : ℕ
two_32 = 2 ^ 32

abbrev pub two_63 : ℕ
two_63 = 2 ^ 63

abbrev pub two_64 : ℕ
two_64 = 2 ^ 64

-- `n as i64` of a 64-bit pattern
unfoldable pub as_i64 : ℕ → ℤ
as_i64 n = if ltb n two_63 then ℤ.pos n else ℤ.negsuc (two_64 - 1 - n)

-- `a as u64` of an integer in range
unfoldable pub as_u64 : ℤ → ℕ
as_u64 (ℤ.pos n) = n
as_u64 (ℤ.negsuc n) = two_64 - 1 - n

unfoldable pub add_i64 : ℤ → ℤ → ℤ
unfolding as_i64 as_u64
add_i64 a b = as_i64 ((as_u64 a + as_u64 b) % two_64)

abbrev pub le_i64 : ℤ → ℤ → Bool
le_i64 (ℤ.pos a) (ℤ.pos b) = leb a b
le_i64 (ℤ.pos a) (ℤ.negsuc b) = false
le_i64 (ℤ.negsuc a) (ℤ.pos b) = true
le_i64 (ℤ.negsuc a) (ℤ.negsuc b) = leb b a

abbrev pub lt_i64 : ℤ → ℤ → Bool
lt_i64 (ℤ.pos a) (ℤ.pos b) = ltb a b
lt_i64 (ℤ.pos a) (ℤ.negsuc b) = false
lt_i64 (ℤ.negsuc a) (ℤ.pos b) = true
lt_i64 (ℤ.negsuc a) (ℤ.negsuc b) = ltb b a

abbrev pub is_minus_one : ℤ → Bool
is_minus_one (ℤ.negsuc n) = nat_beq n 0
is_minus_one (ℤ.pos n) = false

-- Sums that stay below 2 ^ 63 do not wrap.
pub add_i64-pos : (a b : ℕ) → a + b < two_63 → add_i64 (ℤ.pos a) (ℤ.pos b) ≡ ℤ.pos (a + b)
unfolding add_i64
add_i64-pos a b h = ground arith
