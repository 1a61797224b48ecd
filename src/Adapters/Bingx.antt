-- ===== src/Adapters/Bingx.antt =====
-- crates/exchange-bingx/src/bingx_trade.rs, and the names of scale.rs.
pub mod Instruments
use trading_terminal_cluster.Common.{List, [], ◌∷◌, ◌++◌, Bool, false, not, Option, none, some}
use trading_terminal_cluster.Common.Tests.{if◌then◌else◌, ltb}
use trading_terminal_cluster.Common.Int.{pos}
use trading_terminal_cluster.Common.Text.{Text, codes, contains, split_once, str_len}
use trading_terminal_cluster.Common.Slices.{strip_suffix, split_from_end, remove_char}
use trading_terminal_cluster.Common.Json.{
  Json, and_then, or_default, str_field, i64_field, bool_field,
}
use trading_terminal_cluster.Core.{
  AggressorSide, bid, ask, MarketType, spot, perp, SymbolSpec, TradePrint,
}
use trading_terminal_cluster.Scale.{Result, ok, ◌>>=◌, parse_scaled}
use trading_terminal_cluster.Adapters.{collect_some, usable, trade_id_of, nanoseconds}

-- The two parts of a symbol in the name of the exchange; a symbol of three bytes or less is whole.
-- None is a panic.
unfoldable pub to_bingx_symbol : (Text → Text) → Text → Option Text
unfolding strip_suffix split_from_end str_len
to_bingx_symbol to_uppercase symbol =
    let upper = to_uppercase symbol in
    elim (strip_suffix (codes "USDT") upper) [
      | some base ↦ some (base ++ codes "-USDT")
      | none ↦ elim (strip_suffix (codes "USDC") upper) [
        | some base ↦ some (base ++ codes "-USDC")
        | none ↦
            if ltb 3 (str_len upper)
            then and_then (split_from_end 3 upper) (λ (base, quote). some (base ++ (b'-' ∷ quote)))
            else some upper
      ]
    ]

-- `m`: on the futures market the buyer is the maker; on the spot market it is the other way round.
unfoldable pub aggressor : MarketType → Bool → AggressorSide
aggressor perp m = if m then ask else bid
aggressor spot m = if not m then ask else bid

module _ (json : Json) where
  open json use {Value, get, as_array}

  unfoldable pub peek_symbol : (Text → Text) → Value → Option Text
  unfolding str_field contains split_once remove_char
  peek_symbol to_uppercase v = and_then (str_field json (codes "dataType") v) (λ dt.
      let venue = elim (split_once b'@' dt) as (λ _. Text) [ none ↦ dt | some (l, _) ↦ l ] in
      if contains (codes "@trade") dt then some (to_uppercase (remove_char b'-' venue)) else none)

  -- A deal without a price or a quantity is left out.
  unfoldable pub parse_deal : SymbolSpec → Value → Result (Option TradePrint)
  unfolding str_field i64_field bool_field aggressor
  parse_deal spec it = elim (str_field json (codes "p") it) [
    | none ↦ ok none
    | some px ↦ elim (str_field json (codes "q") it) [
      | none ↦ ok none
      | some qy ↦ do
        price ← parse_scaled px spec.price_scale
        qty ← parse_scaled qy spec.qty_scale
        ok (
            some (record {
              exchange_ts_ns = nanoseconds (or_default (pos 0) (i64_field json (codes "T") it));
              aggressor =
                  aggressor spec.market_type (or_default false (bool_field json (codes "m") it));
              price = price;
              qty = qty;
              trade_id = trade_id_of (str_field json (codes "t") it);
            }))
    ]
  ]

  -- The data of a frame: an array, or a single deal.
  unfoldable pub items_of : Value → List Value
  items_of item = or_default (item ∷ []) (as_array item)

  unfoldable pub parse_value : SymbolSpec → Value → Result (List TradePrint)
  unfolding items_of parse_deal usable
  parse_value spec v = elim (get (codes "data") v) [
    | none ↦ ok []
    | some d ↦ collect_some (parse_deal spec) (items_of d) >>= usable (items_of d)
  ]
