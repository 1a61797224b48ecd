-- ===== src/Scale.antt =====
-- crates/exchange-binance/src/scale.rs: decimal texts as scaled integers. The other adapters'
-- scale.rs files carry copies of these functions.
pub mod Value
pub mod Sound
pub mod Trimmed
pub mod Exact
use trading_terminal_cluster.Common.{
  ℕ, ◌+◌, ◌-◌, ◌*◌, ◌^◌, List, [], ◌∷◌, ◌++◌, Option, none, some, Bool, true, false, not, ◌||◌,
}
use trading_terminal_cluster.Common.Lists.{length, take, replicate}
use trading_terminal_cluster.Common.Tests.{if◌then◌else◌, leb, nat_beq, ltb}
use trading_terminal_cluster.Common.Int.{ℤ, pos}
use trading_terminal_cluster.Common.Machine.{max_i64}
pub use trading_terminal_cluster.Common.Show.{digits_value}
use trading_terminal_cluster.Common.Text.{
  Text, is_digit, all_chars, trim, trim_end, split_once, ends_with_char, str_len,
}

-- What an `ExchangeError::Parse` says.
pub data ParseError : Type 0 where
  empty_number negative_number invalid_integer_part invalid_fractional_part : ParseError
  number_too_large scale_overflows value_overflows : ParseError
  bad_document bad_code unknown_side no_usable_deals : ParseError
  missing : Text → ParseError

pub data Result {ℓ} (A : Type ℓ) : Type ℓ where
  ok : A → Result A
  err : ParseError → Result A

infixl 5 ◌>>=◌ ◌>>◌
abbrev pub ◌>>=◌ {ℓ κ} : {X : Type ℓ} {Y : Type κ} → Result X → (X → Result Y) → Result Y
err e >>= next = err e
ok x >>= next = next x

abbrev pub ◌>>◌ {ℓ} : {Y : Type ℓ} → Result (Unit {0}) → Result Y → Result Y
check >> rest = check >>= λ _. rest

-- An early `return Err(e)`.
abbrev pub refuse_if : Bool → ParseError → Result (Unit {0})
refuse_if true e = err e
refuse_if false e = ok tt

abbrev pub is_empty : Text → Bool
is_empty [] = true
is_empty (c ∷ s) = false

abbrev pub starts_with_minus : Text → Bool
starts_with_minus [] = false
starts_with_minus (c ∷ s) = nat_beq c b'-'

-- `parse::<i64>()` on a text of digits that is not empty.
unfoldable pub parse_i64 : Text → Result ℕ
parse_i64 s = if leb (digits_value 0 s) max_i64 then ok (digits_value 0 s) else err number_too_large

-- `frac_val`
unfoldable pub fraction_value : Text → ℕ → Result ℕ
unfolding parse_i64
fraction_value frac_part scale =
    if is_empty frac_part || nat_beq scale 0
    then ok 0
    else if leb (length frac_part) scale
    then parse_i64 (frac_part ++ replicate (scale - length frac_part) b'0')
    else parse_i64 (take scale frac_part)

-- `10i64.checked_pow(scale)`
unfoldable pub multiplier : ℕ → Result ℕ
multiplier scale = if leb (10 ^ scale) max_i64 then ok (10 ^ scale) else err scale_overflows

-- `checked_mul` and `checked_add`
unfoldable pub combine : ℕ → ℕ → ℕ → Result ℤ
combine int_val m frac_val =
    if leb (int_val * m) max_i64
    then (if leb (int_val * m + frac_val) max_i64
        then ok (pos (int_val * m + frac_val))
        else err value_overflows)
    else err value_overflows

-- `splitn(2, '.')`, with the defaults of `unwrap_or`.
unfoldable pub split_parts : Text → Text × Text
split_parts s = elim (split_once b'.' s) [ none ↦ (s, []) | some (l, r) ↦ (l, r) ]

unfoldable pub parse_parts : Text → Text → ℕ → Result ℤ
parse_parts int_part frac_part scale = do
  refuse_if (is_empty int_part || not (all_chars is_digit int_part)) invalid_integer_part
  refuse_if (not (all_chars is_digit frac_part)) invalid_fractional_part
  int_val ← parse_i64 int_part
  frac_val ← fraction_value frac_part scale
  m ← multiplier scale
  combine int_val m frac_val

unfoldable pub parse_scaled : Text → ℕ → Result ℤ
unfolding trim split_parts split_once parse_parts
parse_scaled text scale = do
  let s = trim text
  refuse_if (is_empty s) empty_number
  refuse_if (starts_with_minus s) negative_number
  let parts = split_parts s
  parse_parts parts.0 parts.1 scale

-- A `u8`: at most 255.
unfoldable pub count_decimals_trimmed : Text → ℕ
unfolding split_once trim_end ends_with_char str_len
count_decimals_trimmed value = elim (split_once b'.' value) [
  | none ↦ 0
  | some (before, after) ↦
      let trimmed = trim_end (λ c. nat_beq c b'0') value in
      if ends_with_char b'.' trimmed
      then 0
      else (let after_dot = str_len trimmed - str_len before - 1 in
          if ltb after_dot 255 then after_dot else 255)
]
