-- ===== src/Adapters/Kucoin.antt =====
-- crates/exchange-kucoin: kucoin_trade.rs and the names and fractions of scale.rs.
pub mod Instruments
use trading_terminal_cluster.Common.{List, [], ◌∷◌, ◌++◌, Bool, ◌||◌, Option, none, some}
use trading_terminal_cluster.Common.Tests.{if◌then◌else◌}
use trading_terminal_cluster.Common.Int.{ℤ, pos, int_beq}
use trading_terminal_cluster.Common.Machine.{max_i64}
use trading_terminal_cluster.Common.Eq.{◌==◌, nat_eq, list_eq, option_eq}
use trading_terminal_cluster.Common.Text.{Text, codes, contains, after_last}
use trading_terminal_cluster.Common.Json.{Json, and_then, or_else, or_default, str_field}
use trading_terminal_cluster.Common.Parse.{parse_signed_to}
use trading_terminal_cluster.Common.Division.{quotient}
use trading_terminal_cluster.Core.{SymbolSpec, TradePrint}
use trading_terminal_cluster.Scale.{
  Result, ok, err, ◌>>=◌, ◌>>◌, refuse_if, is_empty, missing, parse_scaled,
}
use trading_terminal_cluster.Adapters.{require, eq_ignore_ascii_case, at_least_one}
use trading_terminal_cluster.Adapters.Bitget.{aggressor}
use trading_terminal_cluster.Adapters.Okx.{
  CtMap, base_quote, decimals_of, without_point, ten_to, gcd,
}
use trading_terminal_cluster.Adapters.Okx.Trades.{contract_of, convert}

unfoldable pub norm_base : (Text → Text) → Text → Text
unfolding eq_ignore_ascii_case
norm_base to_uppercase base =
    if eq_ignore_ascii_case base (codes "XBT") then codes "BTC" else to_uppercase base

-- None is a panic.
unfoldable pub to_kucoin_symbol : (Text → Text) → Text → Bool → Option Text
unfolding base_quote
to_kucoin_symbol to_uppercase symbol is_futures =
    and_then (base_quote (to_uppercase symbol)) (λ (base, quote).
      let base_f = if base == codes "BTC" then codes "XBT" else base in
      some (if is_futures then base_f ++ (quote ++ codes "M") else base ++ (b'-' ∷ quote)))

-- Like OKX's `ct_val_fraction`, but the number and the divisor are at least 1.
unfoldable pub decimal_fraction : Text → Option (ℤ × ℤ)
unfolding decimals_of without_point ten_to gcd at_least_one quotient
decimal_fraction s =
    let denom = ten_to max_i64 (decimals_of s) in
    let num = without_point max_i64 s in
    and_then (gcd (at_least_one (some num)) denom) (λ g.
      and_then (quotient max_i64 num (at_least_one (some g)))
        (λ n. and_then (quotient max_i64 denom (at_least_one (some g))) (λ d. some (n, d))))

module _ (json : Json) where
  open json use {Value, get, as_str, as_i64, is_object, number_text}

  unfoldable pub peek_symbol : Value → Option Text
  unfolding str_field contains after_last
  peek_symbol v =
      if str_field json (codes "type") v == some (codes "message")
      then and_then (str_field json (codes "topic") v) (λ topic.
        if contains (codes "/execution") topic || contains (codes "/market/match") topic
        then some (after_last b':' topic)
        else none)
      else none

  unfoldable pub num_str : Option Value → Text
  num_str none = []
  num_str (some v) = or_default [] (or_else (as_str v) (number_text v))

  unfoldable pub num_i64 : Option Value → ℤ
  unfolding parse_signed_to
  num_i64 none = pos 0
  num_i64 (some v) = elim (as_str v) [
    | some s ↦ or_default (pos 0) (parse_signed_to max_i64 s)
    | none ↦ or_default (pos 0) (as_i64 v)
  ]

  -- `ts`, or `time` where that is 0.
  unfoldable pub time_of : Value → ℤ
  unfolding num_i64
  time_of d =
      if int_beq (num_i64 (get (codes "ts") d)) (pos 0)
      then num_i64 (get (codes "time") d)
      else num_i64 (get (codes "ts") d)

  -- Up to the quantity, which is still in contracts.
  unfoldable pub read_trade : SymbolSpec → Value → Result TradePrint
  unfolding str_field aggressor num_str time_of
  read_trade spec d = do
    side_str ← require (codes "side") (str_field json (codes "side") d)
    side ← aggressor side_str
    let px = num_str (get (codes "price") d)
    let sz = num_str (get (codes "size") d)
    refuse_if (is_empty px || is_empty sz) (missing (codes "price/size"))
    price ← parse_scaled px spec.price_scale
    qty ← parse_scaled sz spec.qty_scale
    ok (record {
      exchange_ts_ns = time_of d;
      aggressor = side;
      price = price;
      qty = qty;
      trade_id = 0;
    })

  -- The time is tested after the quantity is converted.
  unfoldable pub with_time : TradePrint → Result (List TradePrint)
  with_time p =
      if int_beq p.exchange_ts_ns (pos 0) then err (missing (codes "ts/time")) else ok (p ∷ [])

  unfoldable pub parse_data : SymbolSpec → ℤ × ℤ → Value → Option (Result (List TradePrint))
  unfolding read_trade convert with_time
  parse_data spec ct d = elim (read_trade spec d) [
    | err e ↦ some (err e)
    | ok p ↦ and_then (convert ct p) (λ q. some (with_time q))
  ]

  -- None is a panic.
  unfoldable pub parse_value : CtMap → SymbolSpec → Value → Option (Result (List TradePrint))
  unfolding parse_data contract_of
  parse_value m spec v = elim (get (codes "data") v) [
    | none ↦ some (ok [])
    | some d ↦ if is_object d then parse_data spec (contract_of spec m) d else some (ok [])
  ]
