-- ===== src/Base/Machine.antt =====
-- Machine words: an i64 or i32 is the integer it stands for, a u64 or usize a number. Arithmetic
-- wraps, as in a release build.
use Prim.Native.Nat.{◌≤◌, ◌+◌, ◌<◌, ℕ, ◌-◌, ◌%◌, ◌^◌}
use mathlib.Core.Path.{◌≡◌}
use native.Mathlib.Omega.{arith}
use r.Base.Tests.{ltb, if◌then◌else◌}
use r.Base.Int.{◌≤ℤ◌, ℤ, pos, negsuc, ◌+ℤ◌, ◌-ℤ◌}

-- The integer of a 64-bit pattern, and the pattern of an integer.
abbrev pub signed64 : ℕ → ℤ
signed64 w = if ltb w (2 ^ 63) then pos w else negsuc (2 ^ 64 - w - 1)

abbrev pub pattern64 : ℤ → ℕ
pattern64 (pos n) = n % 2 ^ 64
pattern64 (negsuc n) = 2 ^ 64 - 1 - n % 2 ^ 64

unfoldable pub wrap64 : ℤ → ℤ
wrap64 a = signed64 (pattern64 a)

pub record InI64 (a : ℤ) : Type 0 where
  pub above : negsuc (2 ^ 63 - 1) ≤ℤ a
  pub below : a ≤ℤ pos (2 ^ 63 - 1)

pub wrap64-id : (a : ℤ) → InI64 a → wrap64 a ≡ a
unfolding wrap64
wrap64-id (pos n) h = ground arith
wrap64-id (negsuc n) h = ground arith

-- `+` and `-` on i64.
unfoldable pub add64 : ℤ → ℤ → ℤ
unfolding wrap64 ◌+ℤ◌
add64 a b = wrap64 (a +ℤ b)

unfoldable pub sub64 : ℤ → ℤ → ℤ
unfolding wrap64 ◌-ℤ◌
sub64 a b = wrap64 (a -ℤ b)

-- On the patterns the sum is modulo 2^64.
pub pattern64-add64 : (a b : ℤ) → pattern64 (add64 a b) ≡ (pattern64 a + pattern64 b) % 2 ^ 64
unfolding add64 wrap64 ◌+ℤ◌
pattern64-add64 (pos a) (pos b) = ground arith
pattern64-add64 (negsuc a) (pos b) = ground arith
pattern64-add64 (pos a) (negsuc b) = ground arith
pattern64-add64 (negsuc a) (negsuc b) = ground arith

pub add64_eq : (a b : ℤ) → InI64 (a +ℤ b) → add64 a b ≡ a +ℤ b
unfolding add64
add64_eq a b h = wrap64-id (a +ℤ b) h

pub sub64_eq : (a b : ℤ) → InI64 (a -ℤ b) → sub64 a b ≡ a -ℤ b
unfolding sub64
sub64_eq a b h = wrap64-id (a -ℤ b) h

-- `x as i64` of a u64, and `x as u64` of an i64.
unfoldable pub to_i64 : ℕ → ℤ
to_i64 n = signed64 (n % 2 ^ 64)

unfoldable pub to_u64 : ℤ → ℕ
to_u64 a = pattern64 a

abbrev pub signed32 : ℕ → ℤ
signed32 w = if ltb w (2 ^ 31) then pos w else negsuc (2 ^ 32 - w - 1)

abbrev pub pattern32 : ℤ → ℕ
pattern32 (pos n) = n % 2 ^ 32
pattern32 (negsuc n) = 2 ^ 32 - 1 - n % 2 ^ 32

-- `+` on i32, and `x as i32` of a usize.
unfoldable pub add32 : ℤ → ℤ → ℤ
unfolding ◌+ℤ◌
add32 a b = signed32 (pattern32 (a +ℤ b))

unfoldable pub to_i32 : ℕ → ℤ
to_i32 n = signed32 (n % 2 ^ 32)

pub record InI32 (a : ℤ) : Type 0 where
  pub above : negsuc (2 ^ 31 - 1) ≤ℤ a
  pub below : a ≤ℤ pos (2 ^ 31 - 1)

-- A size that fits is cast and added without change.
pub to_u64_pos : (n : ℕ) → n < 2 ^ 64 → to_u64 (pos n) ≡ n
unfolding to_u64
to_u64_pos n h = omega arith

pub to_i64_small : (n : ℕ) → n < 2 ^ 63 → to_i64 n ≡ pos n
unfolding to_i64
to_i64_small n h = ground arith

pub add64_pos : (a b : ℕ) → a + b < 2 ^ 63 → add64 (pos a) (pos b) ≡ pos (a + b)
unfolding add64
add64_pos a b h = ground arith

pub sub64_pos : (a b : ℕ) → b ≤ a → a < 2 ^ 63 → sub64 (pos a) (pos b) ≡ pos (a - b)
unfolding sub64
sub64_pos a b h k = ground arith

pub to_i32_small : (n : ℕ) → n < 2 ^ 31 → to_i32 n ≡ pos n
unfolding to_i32
to_i32_small n h = ground arith

pub add32_pos : (a b : ℕ) → a + b < 2 ^ 31 → add32 (pos a) (pos b) ≡ pos (a + b)
unfolding add32
add32_pos a b h = ground arith
