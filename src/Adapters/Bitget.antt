-- ===== src/Adapters/Bitget.antt =====
-- crates/exchange-bitget: bitget_trade.rs and the parsers of instruments_info.rs.
use trading_terminal_cluster.Common.{ℕ, List, [], Bool, ◌||◌, Option, none, some}
use trading_terminal_cluster.Common.Tests.{if◌then◌else◌}
use trading_terminal_cluster.Common.Int.{ℤ, pos}
use trading_terminal_cluster.Common.Machine.{max_i64}
use trading_terminal_cluster.Common.Eq.{◌==◌, nat_eq, list_eq, option_eq}
use trading_terminal_cluster.Common.Text.{Text, codes}
use trading_terminal_cluster.Common.Json.{
  Json, and_then, or_else, or_default, str_field, array_field,
}
use trading_terminal_cluster.Common.Parse.{parse_signed_to, parse_unsigned_to}
use trading_terminal_cluster.Core.{
  AggressorSide, bid, ask, Exchange, bitget, bitget_f, MarketType, spot, perp, SymbolSpec,
  TradePrint,
}
use trading_terminal_cluster.Scale.{
  Result, ok, err, ◌>>=◌, bad_document, bad_code, unknown_side, parse_scaled,
}
use trading_terminal_cluster.Adapters.{
  Fields, read_print, spec_from, require, collect, filter_map, insert_all, eq_ignore_ascii_case,
  quote_of, at_least_one, ok_or_none,
}

unfoldable pub aggressor : Text → Result AggressorSide
unfolding eq_ignore_ascii_case
aggressor s =
    if eq_ignore_ascii_case s (codes "buy")
    then ok bid
    else if eq_ignore_ascii_case s (codes "sell")
    then ok ask
    else err unknown_side

pub data BitgetCategory : Type 0 where
  perpetuals spot_pairs : BitgetCategory

unfoldable pub market_of : BitgetCategory → Exchange × MarketType
market_of perpetuals = (bitget_f, perp)
market_of spot_pairs = (bitget, spot)

-- `parse::<u8>().ok()`
unfoldable pub parse_u8 : Text → Option ℕ
unfolding parse_unsigned_to
parse_u8 s = parse_unsigned_to 255 s

-- Both places are there; the step depends on the second one.
unfoldable pub sizes_from : Option ℕ → Option ℕ → ℤ → (ℕ → ℤ) → Option (ℕ × ℕ × ℤ × ℤ)
sizes_from (some price_place) (some volume_place) tick_size step_size =
    some (price_place, volume_place, tick_size, step_size volume_place)
sizes_from _ _ tick_size step_size = none

module _ (json : Json) (to_uppercase : Text → Text) where
  open json use {Value, from_str, get, as_str, as_i64}

  unfoldable pub peek_symbol : Value → Option Text
  unfolding str_field
  peek_symbol v = and_then (get (codes "arg") v) (λ arg.
      if str_field json (codes "channel") arg == some (codes "trade")
      then and_then (str_field json (codes "instId") arg) (λ inst. some (to_uppercase inst))
      else none)

  unfoldable pub time_of : Value → Option ℤ
  unfolding parse_signed_to
  time_of t =
      and_then (get (codes "ts") t)
        (λ x. or_else (and_then (as_str x) (parse_signed_to max_i64)) (as_i64 x))

  unfoldable pub fields_of : Value → Fields
  unfolding str_field time_of
  fields_of t = record {
    time_ms = require (codes "ts") (time_of t);
    side = require (codes "side") (str_field json (codes "side") t);
    price = require (codes "price") (str_field json (codes "price") t);
    size = require (codes "size") (str_field json (codes "size") t);
    id = str_field json (codes "tradeId") t;
  }

  unfoldable pub parse_trade : SymbolSpec → Value → Result TradePrint
  unfolding fields_of aggressor read_print
  parse_trade spec t = read_print aggressor spec (fields_of t)

  unfoldable pub parse_value : SymbolSpec → Value → Result (List TradePrint)
  unfolding array_field parse_trade
  parse_value spec v = elim (array_field json (codes "data") v) [
    | none ↦ ok []
    | some trades ↦ collect (parse_trade spec) trades
  ]

  -- Contracts that are off or in maintenance, and pairs that are offline, are left out.
  unfoldable pub is_dead : BitgetCategory → Value → Bool
  unfolding str_field
  is_dead perpetuals s =
      str_field json (codes "symbolStatus") s == some (codes "off")
      || str_field json (codes "symbolStatus") s == some (codes "maintain")
  is_dead spot_pairs s = str_field json (codes "status") s == some (codes "offline")

  -- The scales, the tick and the step.
  unfoldable pub sizes : BitgetCategory → Value → Option (ℕ × ℕ × ℤ × ℤ)
  unfolding str_field parse_u8 parse_signed_to at_least_one sizes_from
  sizes perpetuals s =
      let place = λ (key : Text). and_then (str_field json key s) parse_u8 in
      let tick_size =
        at_least_one
          (and_then (str_field json (codes "priceEndStep") s) (parse_signed_to max_i64)) in
      sizes_from (place (codes "pricePlace")) (place (codes "volumePlace")) tick_size
        (λ volume_place. at_least_one (
          and_then (str_field json (codes "minTradeNum") s)
            (λ x. ok_or_none (parse_scaled x volume_place))))
  sizes spot_pairs s =
      let place = λ (key : Text). and_then (str_field json key s) parse_u8 in
      sizes_from (place (codes "pricePrecision")) (place (codes "quantityPrecision")) (pos 1)
        (λ _. pos 1)

  unfoldable pub listed : BitgetCategory → Value → Option SymbolSpec
  unfolding str_field market_of is_dead sizes quote_of spec_from
  listed category s =
      let symbol = and_then (str_field json (codes "symbol") s) (λ x. some (to_uppercase x)) in
      let quote = and_then (str_field json (codes "quoteCoin") s) quote_of in
      let spec = spec_from (market_of category) symbol quote (sizes category s) in
      if is_dead category s then none else spec

  unfoldable pub data_list : Text → Result (List Value)
  unfolding str_field array_field
  data_list text = elim (from_str text) [
    | none ↦ err bad_document
    | some v ↦
        if str_field json (codes "code") v == some (codes "00000")
        then require (codes "data") (array_field json (codes "data") v)
        else err bad_code
  ]

  unfoldable pub parse_instruments : BitgetCategory → Text → Result (List SymbolSpec)
  unfolding data_list listed
  parse_instruments category text = do list ← data_list text; ok (filter_map (listed category) list)

  -- The volumes by symbol; an f64 and its zero are parameters.
  module _ {V : Type 0} (parse_f64 : Text → Option V) (zero_volume : V) where
    unfoldable pub volume : Value → Option (Text × V)
    unfolding str_field
    volume entry = and_then (str_field json (codes "symbol") entry) (λ symbol.
        let field = λ (key : Text). str_field json key entry in
        let found = or_else (field (codes "quoteVolume")) (
          or_else (field (codes "quoteVol"))
            (or_else (field (codes "usdtVolume")) (field (codes "usdtVol")))) in
        some (to_uppercase symbol, or_default zero_volume (and_then found parse_f64)))

    unfoldable pub parse_24h_volumes : Text → Result (List (Text × V))
    unfolding data_list volume
    parse_24h_volumes text = do list ← data_list text; ok (insert_all (filter_map volume list))
