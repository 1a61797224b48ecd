-- ===== src/Common/Machine.antt =====
-- Rust's fixed-width integers: an `i64` is an integer, a `u32` or `u64` a natural number, and the
-- wrapping or saturation of each operation is written out.
use Prim.Native.Nat.{ℕ, zero, suc, ◌+◌, ◌-◌, ◌*◌, ◌/◌, ◌%◌, ◌^◌, ◌≤◌, ◌<◌, min}
use mathlib.Core.Path.{◌≡◌}
use native.Mathlib.Omega.{arith}
use trading_terminal_cluster.Common.Tests.{leb, if◌then◌else◌}
use trading_terminal_cluster.Common.Int.{ℤ, pos, negsuc, pos_part, neg_part, ◌+ℤ◌, ◌-ℤ◌, ◌*ℤ◌, ◌<ℤ◌}

abbrev pub max_u32 : ℕ
max_u32 = 2 ^ 32 - 1

abbrev pub max_u64 : ℕ
max_u64 = 2 ^ 64 - 1

abbrev pub max_i64 : ℕ
max_i64 = 2 ^ 63 - 1

-- The range of an `i64`.
abbrev pub IsI64 : ℤ → Type 0
IsI64 z = (pos_part z ≤ max_i64) × (neg_part z ≤ 2 ^ 63)

-- An out-of-range result wraps around.
unfoldable pub wrap_i64 : ℤ → ℤ
wrap_i64 (pos n) = let m = n % 2 ^ 64 in if leb m max_i64 then pos m else negsuc (2 ^ 64 - 1 - m)
wrap_i64 (negsuc n) = let m = n % 2 ^ 64 in if leb m max_i64 then negsuc m else pos (2 ^ 64 - 1 - m)

-- `as i32`
unfoldable pub wrap_i32 : ℤ → ℤ
wrap_i32 (pos n) =
    let m = n % 2 ^ 32 in if leb m (2 ^ 31 - 1) then pos m else negsuc (2 ^ 32 - 1 - m)
wrap_i32 (negsuc n) =
    let m = n % 2 ^ 32 in if leb m (2 ^ 31 - 1) then negsuc m else pos (2 ^ 32 - 1 - m)

pub wrap_i64_id : (z : ℤ) → IsI64 z → wrap_i64 z ≡ z
unfolding wrap_i64
wrap_i64_id (pos n) h = ground arith
wrap_i64_id (negsuc n) h = ground arith

-- `i64::saturating_add` and `saturating_sub`.
abbrev clamp_i64 : ℤ → ℤ
clamp_i64 (pos n) = if leb n max_i64 then pos n else pos max_i64
clamp_i64 (negsuc n) = if leb n max_i64 then negsuc n else negsuc max_i64

unfoldable pub saturating_add : ℤ → ℤ → ℤ
unfolding ◌+ℤ◌
saturating_add a b = clamp_i64 (a +ℤ b)

unfoldable pub saturating_sub : ℤ → ℤ → ℤ
unfolding ◌-ℤ◌
saturating_sub a b = clamp_i64 (a -ℤ b)

-- `x += 1` on an `i64`.
unfoldable pub increment : ℤ → ℤ
unfolding ◌+ℤ◌ wrap_i64
increment z = wrap_i64 (z +ℤ pos 1)

-- `x += n` on a `u64`.
unfoldable pub add_u64 : ℕ → ℕ → ℕ
add_u64 a b = (a + b) % 2 ^ 64

unfoldable pub saturating_mul : ℤ → ℤ → ℤ
unfolding ◌*ℤ◌
saturating_mul a b = clamp_i64 (a *ℤ b)

-- `u32::saturating_add`
unfoldable pub saturating_add_u32 : ℕ → ℕ → ℕ
saturating_add_u32 a b = if leb (a + b) max_u32 then a + b else max_u32

-- -n.
abbrev pub negate_ℕ : ℕ → ℤ
negate_ℕ zero = pos 0
negate_ℕ (suc n) = negsuc n

-- `(z / step) * step` at a positive step: Rust's division drops the remainder towards zero. The
-- product is at most `z` in size, so it does not leave the range of `z`.
unfoldable pub round_to : ℤ → ℕ → ℤ
round_to (pos n) step = pos (n / step * step)
round_to (negsuc n) step = negate_ℕ (suc n / step * step)

-- `z / n` at a positive `n`.
unfoldable pub div_i64 : ℤ → ℕ → ℤ
div_i64 (pos m) n = pos (m / n)
div_i64 (negsuc m) n = negate_ℕ (suc m / n)

pub increment_lt : (z : ℤ) → pos_part z < max_i64 → neg_part z ≤ 2 ^ 63 → z <ℤ increment z
unfolding increment
increment_lt (pos n) h k = ground arith
increment_lt (negsuc n) h k = ground arith

-- Saturated sums of quantities that are not negative are the sum, cut at the largest `i64`.
pub saturating_add-min :
    (a b : ℕ) → saturating_add (pos (min a max_i64)) (pos b) ≡ pos (min (a + b) max_i64)
unfolding saturating_add
saturating_add-min a b = ground arith

pub saturating_add_u32-min : (a b : ℕ) → saturating_add_u32 (min a max_u32) b ≡ min (a + b) max_u32
unfolding saturating_add_u32
saturating_add_u32-min a b = ground arith

pub add_u64_small : (a b : ℕ) → a + b < 2 ^ 64 → add_u64 a b ≡ a + b
unfolding add_u64
add_u64_small a b h = omega arith
