-- ===== src/Common/Division.antt =====
-- Division of Rust's signed integers: it rounds towards zero. A result outside the type's range or
-- a divisor of zero is a panic, here none.
use trading_terminal_cluster.Common.{
  ℕ, ◌+◌, ◌-◌, ◌*◌, ◌/◌, ◌%◌, ◌^◌, Bool, true, false, Option, none, some,
}
use trading_terminal_cluster.Common.Tests.{if◌then◌else◌, leb, nat_beq}
use trading_terminal_cluster.Common.Int.{ℤ, pos, negsuc, pos_part, neg_part}
use trading_terminal_cluster.Common.Machine.{max_i64, negate_ℕ}

-- The size of a number.
abbrev pub magnitude : ℤ → ℕ
magnitude z = pos_part z + neg_part z

-- The number of this size, with the sign that this test gives.
abbrev pub signed : Bool → ℕ → ℤ
signed true n = negate_ℕ n
signed false n = pos n

abbrev pub is_negative : ℤ → Bool
is_negative (pos _) = false
is_negative (negsuc _) = true

abbrev pub differ : Bool → Bool → Bool
differ true b = if b then false else true
differ false b = b

-- `a / b` and `a % b` in a type whose largest value is `high`.
unfoldable pub quotient : ℕ → ℤ → ℤ → Option ℤ
quotient high a b =
    let q = signed (differ (is_negative a) (is_negative b)) (magnitude a / magnitude b) in
    if nat_beq (magnitude b) 0 then none else if leb (pos_part q) high then some q else none

unfoldable pub remainder : ℕ → ℤ → ℤ → Option ℤ
unfolding quotient
remainder high a b = elim (quotient high a b) [
  | none ↦ none
  | some _ ↦ some (signed (is_negative a) (magnitude a % magnitude b))
]

-- A value that leaves the range of a type with this largest value wraps around.

unfoldable pub wrap_to : ℕ → ℤ → ℤ
wrap_to high (pos n) =
    let m = n % (2 * (high + 1)) in if leb m high then pos m else negsuc (2 * (high + 1) - 1 - m)
wrap_to high (negsuc n) =
    let m = n % (2 * (high + 1)) in if leb m high then negsuc m else pos (2 * (high + 1) - 1 - m)

abbrev pub max_i128 : ℕ
max_i128 = 2 ^ 127 - 1

-- `abs`: of the least value it wraps around.
unfoldable pub abs_i64 : ℤ → ℤ
unfolding wrap_to
abs_i64 z = wrap_to max_i64 (pos (magnitude z))
