-- ===== src/Common/Parse.antt =====
-- Rust's `str::parse` of integers.
use trading_terminal_cluster.Common.{ℕ, ◌+◌, [], ◌∷◌, ◌&&◌, Option, none, some}
use trading_terminal_cluster.Common.Tests.{if◌then◌else◌, leb, nat_beq}
use trading_terminal_cluster.Common.Int.{ℤ, pos}
use trading_terminal_cluster.Common.Machine.{negate_ℕ}
use trading_terminal_cluster.Common.Text.{Text, all_chars, is_digit}
use trading_terminal_cluster.Common.Show.{digits_value}

-- `str::parse` of digits, of which there is at least one, up to a bound.
unfoldable pub parse_digits : ℕ → Text → Option ℕ
unfolding all_chars is_digit
parse_digits bound [] = none
parse_digits bound (c ∷ s) =
    if all_chars is_digit (c ∷ s) && leb (digits_value 0 (c ∷ s)) bound
    then some (digits_value 0 (c ∷ s))
    else none

abbrev pub map_option {ℓ κ} : {A : Type ℓ} {B : Type κ} → (A → B) → Option A → Option B
map_option f none = none
map_option f (some a) = some (f a)

-- A signed integer of at most `high`, and at least `-high - 1`: a sign may stand before the digits.
unfoldable pub parse_signed_to : ℕ → Text → Option ℤ
unfolding parse_digits
parse_signed_to high [] = none
parse_signed_to high (c ∷ s) =
    if nat_beq c b'-'
    then map_option negate_ℕ (parse_digits (high + 1) s)
    else if nat_beq c b'+'
    then map_option pos (parse_digits high s)
    else map_option pos (parse_digits high (c ∷ s))

-- An unsigned integer up to `high`: a plus may stand before the digits.
unfoldable pub parse_unsigned_to : ℕ → Text → Option ℕ
unfolding parse_digits
parse_unsigned_to high [] = none
parse_unsigned_to high (c ∷ s) =
    if nat_beq c b'+' then parse_digits high s else parse_digits high (c ∷ s)
