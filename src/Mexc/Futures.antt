-- ===== src/Mexc/Futures.antt =====
-- The futures parser of crates/exchange-mexc/src/mexc_trade.rs, and the contract names of scale.rs.
use trading_terminal_cluster.Common.{◌-◌, ◌^◌, List, [], ◌∷◌, ◌++◌, ◌||◌, Option, none, some}
use trading_terminal_cluster.Common.Tests.{if◌then◌else◌}
use trading_terminal_cluster.Common.Int.{ℤ, pos}
use trading_terminal_cluster.Common.Eq.{◌==◌, nat_eq, list_eq, option_eq}
use trading_terminal_cluster.Common.Text.{Text, codes, contains}
use trading_terminal_cluster.Common.Division.{wrap_to}
use trading_terminal_cluster.Common.Slices.{strip_suffix, split_from_end}
use trading_terminal_cluster.Common.Json.{Json, and_then, or_default, str_field, i64_field}
use trading_terminal_cluster.Core.{SymbolSpec, TradePrint}
use trading_terminal_cluster.Scale.{Result, ok, err, ◌>>=◌, is_empty, parse_scaled}
use trading_terminal_cluster.Adapters.{nanoseconds}
use trading_terminal_cluster.Adapters.Okx.{CtMap, get_ct}
use trading_terminal_cluster.Adapters.Okx.Trades.{convert, cons_print}
use trading_terminal_cluster.Adapters.Kucoin.{num_str}
use trading_terminal_cluster.Mexc.Trades.{aggressor}

-- The quote is USDC, and USDT of any other symbol, whose last four bytes are cut off. None is a panic.
unfoldable pub to_mexc_contract_symbol : (Text → Text) → Text → Option Text
unfolding contains strip_suffix split_from_end
to_mexc_contract_symbol to_uppercase symbol =
    let upper = to_uppercase symbol in
    if contains (codes "_") upper then some upper else (elim (strip_suffix (codes "USDC") upper) [
      | some base ↦ some (base ++ codes "_USDC")
      | none ↦ and_then (split_from_end 4 upper) (λ (base, _). some (base ++ codes "_USDT"))
    ])

-- `as i32`
unfoldable pub as_i32 : ℤ → ℤ
unfolding wrap_to
as_i32 z = wrap_to (2 ^ 31 - 1) z

module _ (json : Json) where
  open json use {Value, get, as_array}

  unfoldable pub peek_symbol : Value → Option Text
  unfolding str_field
  peek_symbol v =
      if str_field json (codes "channel") v == some (codes "push.deal")
      then str_field json (codes "symbol") v
      else none

  -- The data of a frame: an array, or a single deal.
  unfoldable pub items_of : Value → List Value
  items_of item = or_default (item ∷ []) (as_array item)

  -- A deal before its quantity is converted; one of unknown direction, or without a price or a
  -- volume, is left out.
  unfoldable pub read_deal : SymbolSpec → Value → Result (Option TradePrint)
  unfolding i64_field aggressor num_str as_i32
  read_deal spec item =
      let t_dir = as_i32 (or_default (pos 0) (i64_field json (codes "T") item)) in
      let px = num_str json (get (codes "p") item) in
      let vol = num_str json (get (codes "v") item) in
      elim (aggressor t_dir) [
        | none ↦ ok none
        | some side ↦ if is_empty px || is_empty vol then ok none else (do
          price ← parse_scaled px spec.price_scale
          qty ← parse_scaled vol spec.qty_scale
          ok (
              some (record {
                exchange_ts_ns = nanoseconds (or_default (pos 0) (i64_field json (codes "t") item));
                aggressor = side;
                price = price;
                qty = qty;
                trade_id = 0;
              })))
      ]

  -- None is a panic.
  unfoldable pub parse_deal : SymbolSpec → ℤ × ℤ → Value → Option (Result (Option TradePrint))
  unfolding read_deal convert
  parse_deal spec ct item = elim (read_deal spec item) [
    | err e ↦ some (err e)
    | ok none ↦ some (ok none)
    | ok (some p) ↦ and_then (convert ct p) (λ q. some (ok (some q)))
  ]

  -- The first error or panic ends the loop.
  unfoldable pub parse_deals : SymbolSpec → ℤ × ℤ → List Value → Option (Result (List TradePrint))
  unfolding parse_deal cons_print
  parse_deals spec ct [] = some (ok [])
  parse_deals spec ct (item ∷ items) =
      let rest = parse_deals spec ct items in
      elim (parse_deal spec ct item) [
        | none ↦ none
        | some (err e) ↦ some (err e)
        | some (ok none) ↦ rest
        | some (ok (some p)) ↦ cons_print p rest
      ]

  unfoldable pub parse_value : CtMap → SymbolSpec → Value → Option (Result (List TradePrint))
  unfolding get_ct items_of parse_deals
  parse_value m spec v = elim (get (codes "data") v) [
    | none ↦ some (ok [])
    | some d ↦ parse_deals spec (get_ct spec.symbol m) (items_of d)
  ]
