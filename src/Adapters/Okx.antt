-- ===== src/Adapters/Okx.antt =====
-- crates/exchange-okx/src/scale.rs: names of instruments, contract values and the table of them.
-- KuCoin's and MEXC's scale.rs carry copies of the arithmetic.
pub mod Contracts
pub mod Quantities
pub mod Trades
pub mod Instruments
use trading_terminal_cluster.Common.{
  ℕ, zero, suc, ◌+◌, ◌-◌, ◌*◌, ◌%◌, ◌^◌, List, [], ◌∷◌, ◌++◌, Bool, true, false, Option, none, some,
}
use trading_terminal_cluster.Common.Tests.{if◌then◌else◌, leb, nat_beq}
use trading_terminal_cluster.Common.Lists.{length, replicate}
use trading_terminal_cluster.Common.Int.{ℤ, pos, negsuc, int_beq, ◌*ℤ◌}
use trading_terminal_cluster.Common.Machine.{max_i64}
use trading_terminal_cluster.Common.Eq.{nat_eq, list_eq}
use trading_terminal_cluster.Common.Map.{lookup, insert}
use trading_terminal_cluster.Common.Text.{Text, codes, str_len, split_once, trim_end}
use trading_terminal_cluster.Common.Show.{show_from}
use trading_terminal_cluster.Common.Json.{and_then, or_default}
use trading_terminal_cluster.Common.Parse.{parse_signed_to}
use trading_terminal_cluster.Common.Slices.{split_from_end, strip_suffix, remove_text, remove_char}
use trading_terminal_cluster.Common.Division.{
  magnitude, is_negative, quotient, remainder, wrap_to, max_i128, abs_i64,
}

-- The two parts of a symbol: the quote is USDT, USDC, or its last three bytes; none is a panic.
unfoldable pub base_quote : Text → Option (Text × Text)
unfolding strip_suffix split_from_end
base_quote upper = elim (strip_suffix (codes "USDT") upper) [
  | some base ↦ some (base, codes "USDT")
  | none ↦ elim (strip_suffix (codes "USDC") upper) [
    | some base ↦ some (base, codes "USDC")
    | none ↦ split_from_end 3 upper
  ]
]

-- The change of case is a parameter.
module _ (to_uppercase : Text → Text) where
  unfoldable pub to_okx_inst_id : Text → Bool → Option Text
  unfolding base_quote
  to_okx_inst_id symbol is_swap =
      and_then (base_quote (to_uppercase symbol)) (λ (base, quote).
        some (base ++ (b'-' ∷ (quote ++ (if is_swap then codes "-SWAP" else [])))))

  unfoldable pub normalize_inst_id : Text → Text
  unfolding remove_text remove_char
  normalize_inst_id inst_id = to_uppercase (remove_char b'-' (remove_text (codes "-SWAP") inst_id))

-- The bytes behind the first point.
unfoldable pub decimals_of : Text → ℕ
unfolding split_once str_len
decimals_of s = elim (split_once b'.' s) [ none ↦ 0 | some (_, after) ↦ str_len after ]

-- The number without its point; 1 if it does not parse.
unfoldable pub without_point : ℕ → Text → ℤ
unfolding remove_char parse_signed_to
without_point high s = or_default (pos 1) (parse_signed_to high (remove_char b'.' s))

-- 10 to a number of places, in a signed type with this largest value.
unfoldable pub ten_to : ℕ → ℕ → ℤ
unfolding wrap_to
ten_to high places = wrap_to high (pos (10 ^ (places % 2 ^ 32)))

-- `Display` of an i128: forty digits are enough.
unfoldable pub show_i128 : ℤ → Text
unfolding show_from
show_i128 (pos n) = show_from 40 n []
show_i128 (negsuc n) = b'-' ∷ show_from 40 (suc n) []

-- `{n:0>width$}`
unfoldable pub pad_zeros : ℕ → Text → Text
pad_zeros width s = replicate (width - length s) b'0' ++ s

-- From the product, its places and its divisor: the text of the product.
unfoldable pub fraction_text : ℤ → ℕ → Option Text
unfolding quotient remainder ten_to show_i128 pad_zeros trim_end wrap_to
fraction_text product total_dec =
    let divisor = ten_to max_i128 total_dec in
    and_then (quotient max_i128 product divisor) (λ int_part.
      and_then (remainder max_i128 product divisor) (λ rest.
        let frac_part = wrap_to max_i128 (pos (magnitude rest)) in
        if int_beq frac_part (pos 0)
        then some (show_i128 int_part)
        else some (
            show_i128 int_part
            ++ (b'.'
                ∷ trim_end (λ c. nat_beq c b'0') (pad_zeros total_dec (show_i128 frac_part))))))

-- None is a panic: a division by zero, or one that overflows.
unfoldable pub multiply_decimal_strs : Text → Text → Option Text
unfolding decimals_of without_point fraction_text wrap_to ◌*ℤ◌
multiply_decimal_strs a b =
    let total_dec = decimals_of a + decimals_of b in
    let product = wrap_to max_i128 (without_point max_i128 a *ℤ without_point max_i128 b) in
    if nat_beq total_dec 0 then some (show_i128 product) else fraction_text product total_dec

-- Euclid's loop; none is a panic, or that the turns do not suffice.
unfoldable pub gcd_loop : ℕ → ℤ → ℤ → Option ℤ
unfolding remainder
gcd_loop zero a b = none
gcd_loop (suc turns) a b = elim (int_beq b (pos 0)) [
  | true ↦ some a
  | false ↦ and_then (remainder max_i64 a b) (λ r. gcd_loop turns b r)
]

-- Each turn makes the second number smaller.
unfoldable pub gcd : ℤ → ℤ → Option ℤ
unfolding gcd_loop abs_i64
gcd a b = gcd_loop (suc (magnitude (abs_i64 b))) (abs_i64 a) (abs_i64 b)

-- None is a panic.
unfoldable pub ct_val_fraction : Text → Option (ℤ × ℤ)
unfolding decimals_of without_point ten_to gcd quotient
ct_val_fraction ct_val =
    let denom = ten_to max_i64 (decimals_of ct_val) in
    let num = without_point max_i64 ct_val in
    and_then (gcd num denom) (λ g.
      and_then (quotient max_i64 num g)
        (λ n. and_then (quotient max_i64 denom g) (λ d. some (n, d))))

-- `CT_MAP`: the contract values by symbol.
abbrev pub CtMap : Type 0
CtMap = List (Text × (ℤ × ℤ))

unfoldable pub set_ct : Text → ℤ → ℤ → CtMap → CtMap
set_ct symbol num den m = insert symbol (num, den) m

unfoldable pub get_ct : Text → CtMap → ℤ × ℤ
unfolding lookup
get_ct symbol m = or_default (pos 1, pos 1) (lookup symbol m)
