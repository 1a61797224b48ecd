-- ===== src/Adapters/Bybit.antt =====
-- crates/exchange-bybit: bybit_trade.rs and the parsers of instruments_info.rs.
use trading_terminal_cluster.Common.{ℕ, List, [], Bool, ◌||◌, Option, none, some}
use trading_terminal_cluster.Common.Tests.{if◌then◌else◌}
use trading_terminal_cluster.Common.Int.{ℤ, pos, int_beq}
use trading_terminal_cluster.Common.Eq.{◌==◌, nat_eq, list_eq}
use trading_terminal_cluster.Common.Text.{Text, codes, strip_prefix}
use trading_terminal_cluster.Common.Json.{
  Json, and_then, or_default, str_field, array_field, i64_field,
}
use trading_terminal_cluster.Core.{
  AggressorSide, bid, ask, Exchange, bybit, bybit_f, MarketType, spot, perp, SymbolSpec, TradePrint,
}
use trading_terminal_cluster.Scale.{
  Result, ok, err, ◌>>=◌, is_empty, bad_document, bad_code, unknown_side,
}
use trading_terminal_cluster.Adapters.{
  Fields, read_print, spec_from, scaled_sizes, require, collect, filter_map, insert_all, quote_of,
}

unfoldable pub aggressor : Text → Result AggressorSide
aggressor s =
    if s == codes "Buy" then ok bid else if s == codes "Sell" then ok ask else err unknown_side

-- Nothing where the loop goes on to the next instrument.
unfoldable pub sizes : Text → Text → Option (ℕ × ℕ × ℤ × ℤ)
unfolding scaled_sizes
sizes tick_str step_str =
    if is_empty tick_str || is_empty step_str then none else scaled_sizes tick_str step_str

pub data BybitCategory : Type 0 where
  linear spot_pairs : BybitCategory

unfoldable pub market_of : BybitCategory → Exchange × MarketType
market_of linear = (bybit_f, perp)
market_of spot_pairs = (bybit, spot)

unfoldable pub step_key : BybitCategory → Text
step_key linear = codes "qtyStep"
step_key spot_pairs = codes "basePrecision"

module _ (json : Json) where
  open json use {Value, from_str, get, as_str}

  unfoldable pub peek_symbol : Value → Option Text
  unfolding str_field
  peek_symbol v = and_then (str_field json (codes "topic") v) (strip_prefix (codes "publicTrade."))

  unfoldable pub fields_of : Value → Fields
  unfolding str_field i64_field
  fields_of t = record {
    time_ms = require (codes "T") (i64_field json (codes "T") t);
    side = require (codes "S") (str_field json (codes "S") t);
    price = require (codes "p") (str_field json (codes "p") t);
    size = require (codes "v") (str_field json (codes "v") t);
    id = str_field json (codes "i") t;
  }

  unfoldable pub parse_trade : SymbolSpec → Value → Result TradePrint
  unfolding fields_of aggressor read_print
  parse_trade spec t = read_print aggressor spec (fields_of t)

  -- The trades of a frame; a frame without data has none.
  unfoldable pub parse_value : SymbolSpec → Value → Result (List TradePrint)
  unfolding array_field parse_trade
  parse_value spec v = elim (array_field json (codes "data") v) [
    | none ↦ ok []
    | some trades ↦ collect (parse_trade spec) trades
  ]

  unfoldable pub is_trading : Value → Bool
  unfolding str_field
  is_trading s = or_default [] (str_field json (codes "status") s) == codes "Trading"

  -- An instrument of the list; nothing where the loop goes on to the next one.
  unfoldable pub listed : BybitCategory → Value → Option SymbolSpec
  unfolding str_field market_of step_key sizes quote_of is_trading spec_from
  listed category s =
      let tick_str =
        or_default []
          (and_then (get (codes "priceFilter") s) (str_field json (codes "tickSize"))) in
      let step_str =
        or_default []
          (and_then (get (codes "lotSizeFilter") s) (str_field json (step_key category))) in
      let quote = and_then (str_field json (codes "quoteCoin") s) quote_of in
      let spec =
        spec_from (market_of category) (str_field json (codes "symbol") s) quote
          (sizes tick_str step_str) in
      if is_trading s then spec else none

  -- The list of a document: it parses, its return code is 0, and it has a list.
  unfoldable pub result_list : Text → Result (List Value)
  unfolding i64_field array_field
  result_list text = elim (from_str text) [
    | none ↦ err bad_document
    | some v ↦ elim (i64_field json (codes "retCode") v) [
      | none ↦ err bad_code
      | some code ↦
          if int_beq code (pos 0)
          then require (codes "result.list")
              (and_then (get (codes "result") v) (λ r. array_field json (codes "list") r))
          else err bad_code
    ]
  ]

  unfoldable pub parse_instruments_info : BybitCategory → Text → Result (List SymbolSpec)
  unfolding result_list listed
  parse_instruments_info category text = do
    list ← result_list text
    ok (filter_map (listed category) list)

  unfoldable pub turnover : {V : Type 0} → (Text → Option V) → Value → Option (Text × V)
  unfolding str_field
  turnover parse_f64 entry = and_then (str_field json (codes "symbol") entry) (λ symbol.
      and_then (str_field json (codes "turnover24h") entry)
        (λ turnover_str. and_then (parse_f64 turnover_str) (λ t. some (symbol, t))))

  -- The volumes by symbol; an f64 is a parameter.
  unfoldable pub parse_24h_turnover :
      {V : Type 0} → (Text → Option V) → Text → Result (List (Text × V))
  unfolding result_list
  parse_24h_turnover parse_f64 text = do
    list ← result_list text
    ok (insert_all (filter_map (turnover parse_f64) list))
