-- ===== src/Adapters/Bingx/Instruments.antt =====
-- crates/exchange-bingx/src/instruments_info.rs: the parsers of the two lists of instruments.
use Prim.Native.Nat.{min}
use trading_terminal_cluster.Common.{ℕ, List, Bool, Option, none, some}
use trading_terminal_cluster.Common.Tests.{if◌then◌else◌}
use trading_terminal_cluster.Common.Int.{ℤ, pos, int_beq}
use trading_terminal_cluster.Common.Text.{Text, codes}
use trading_terminal_cluster.Common.Slices.{strip_suffix, remove_char}
use trading_terminal_cluster.Common.Json.{
  Json, and_then, or_else, or_default, str_field, array_field, i64_field, u64_field,
}
use trading_terminal_cluster.Core.{
  Exchange, bingx, bingx_f, MarketType, spot, perp, Quote, usdt, usdc, SymbolSpec,
}
use trading_terminal_cluster.Scale.{
  Result, ok, err, ◌>>=◌, bad_document, bad_code, parse_scaled, count_decimals_trimmed,
}
use trading_terminal_cluster.Adapters.{require, filter_map, at_least_one, ok_or_none, spec_from}

unfoldable pub quote_of : Text → Option Quote
unfolding strip_suffix
quote_of venue = elim (strip_suffix (codes "-USDT") venue) [
  | some _ ↦ some usdt
  | none ↦ elim (strip_suffix (codes "-USDC") venue) [ some _ ↦ some usdc | none ↦ none ]
]

-- `unwrap_or(n).min(18) as u8`
unfoldable pub places : ℕ → Option ℕ → ℕ
places n found = min (or_default n found) 18

-- `fmt_number` is what `fmt_decimal` makes of a number, an f64, and nothing for any other value.
module _ (json : Json) (to_uppercase : Text → Text) (fmt_number : json.Value → Option Text) where
  open json use {Value, from_str, get, as_str, as_array}

  unfoldable pub num_str : Option Value → Option Text
  num_str v = and_then v (λ x. or_else (as_str x) (fmt_number x))

  unfoldable pub is_online : Value → Bool
  unfolding i64_field
  is_online it = int_beq (or_default (pos 0) (i64_field json (codes "status") it)) (pos 1)

  unfoldable pub venue_of : Value → Option Text
  unfolding str_field
  venue_of it = and_then (str_field json (codes "symbol") it) (λ s. some (to_uppercase s))

  -- A tick or step at its scale.
  unfoldable pub step_of : Option Text → ℕ → ℤ
  unfolding at_least_one
  step_of text scale = at_least_one (and_then text (λ s. ok_or_none (parse_scaled s scale)))

  unfoldable pub swap_sizes : Value → ℕ × ℕ × ℤ × ℤ
  unfolding u64_field places num_str step_of
  swap_sizes it =
      let price_scale = places 2 (u64_field json (codes "pricePrecision") it) in
      let qty_scale = places 0 (u64_field json (codes "quantityPrecision") it) in
      (price_scale, qty_scale, pos 1, step_of (num_str (get (codes "size") it)) qty_scale)

  unfoldable pub spot_sizes : Value → ℕ × ℕ × ℤ × ℤ
  unfolding num_str step_of
  spot_sizes it =
      let tick_str = or_default (codes "0.01") (num_str (get (codes "tickSize") it)) in
      let step_str = or_default (codes "0.000001") (num_str (get (codes "stepSize") it)) in
      let price_scale = count_decimals_trimmed tick_str in
      let qty_scale = count_decimals_trimmed step_str in
      (
        price_scale,
        qty_scale,
        step_of (some tick_str) price_scale,
        step_of (some step_str) qty_scale,
      )

  -- An instrument that is online; nothing where the loop goes on to the next one.
  unfoldable pub listed :
      Exchange × MarketType → (Value → ℕ × ℕ × ℤ × ℤ) → Value → Option SymbolSpec
  unfolding is_online venue_of quote_of remove_char spec_from
  listed market sizes it =
      let symbol = and_then (venue_of it) (λ venue. some (remove_char b'-' venue)) in
      let spec = spec_from market symbol (and_then (venue_of it) quote_of) (some (sizes it)) in
      if is_online it then spec else none

  unfoldable pub ok_data : Text → Result Value
  unfolding i64_field
  ok_data text = elim (from_str text) [
    | none ↦ err bad_document
    | some v ↦ elim (i64_field json (codes "code") v) [
      | none ↦ err bad_code
      | some code ↦ if int_beq code (pos 0) then ok v else err bad_code
    ]
  ]

  unfoldable pub parse_swap : Text → Result (List SymbolSpec)
  unfolding ok_data array_field listed swap_sizes
  parse_swap text = do
    v ← ok_data text
    list ← require (codes "data") (array_field json (codes "data") v)
    ok (filter_map (listed (bingx_f, perp) swap_sizes) list)

  unfoldable pub parse_spot : Text → Result (List SymbolSpec)
  unfolding ok_data array_field listed spot_sizes
  parse_spot text = do
    v ← ok_data text
    list ←
        require (codes "data.symbols")
          (and_then (get (codes "data") v) (λ d. array_field json (codes "symbols") d))
    ok (filter_map (listed (bingx, spot) spot_sizes) list)
