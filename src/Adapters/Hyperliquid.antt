-- ===== src/Adapters/Hyperliquid.antt =====
-- crates/exchange-hyperliquid: hyperliquid_trade.rs, the parser of instruments_info.rs, and the table
-- of native names of scale.rs.
use trading_terminal_cluster.Common.{
  ℕ, ◌-◌, ◌%◌, ◌^◌, List, [], ◌∷◌, ◌++◌, false, ◌||◌, Option, none, some,
}
use trading_terminal_cluster.Common.Tests.{if◌then◌else◌}
use trading_terminal_cluster.Common.Int.{pos}
use trading_terminal_cluster.Common.Eq.{◌==◌, nat_eq, list_eq, option_eq}
use trading_terminal_cluster.Common.Map.{lookup, insert}
use trading_terminal_cluster.Common.Text.{Text, codes}
use trading_terminal_cluster.Common.Slices.{strip_suffix}
use trading_terminal_cluster.Common.Json.{
  Json, and_then, or_default, str_field, array_field, i64_field, u64_field, bool_field,
}
use trading_terminal_cluster.Core.{
  AggressorSide, bid, ask, hyperliquid_f, perp, usdc, SymbolSpec, TradePrint,
}
use trading_terminal_cluster.Scale.{Result, ok, err, ◌>>=◌, bad_document, parse_scaled}
use trading_terminal_cluster.Adapters.{require, collect_some, usable, nanoseconds}

unfoldable pub aggressor : Text → Option AggressorSide
aggressor s =
    if s == codes "B" then some bid else if s == codes "A" || s == codes "S" then some ask else none

-- `NATIVE_MAP`: the exchange's names by symbol.
abbrev pub NativeMap : Type 0
NativeMap = List (Text × Text)

unfoldable pub set_native : Text → Text → NativeMap → NativeMap
set_native canonical native m = insert canonical native m

-- The change of case is a parameter.
unfoldable pub get_native : (Text → Text) → Text → NativeMap → Text
unfolding lookup strip_suffix
get_native to_uppercase canonical m =
    let up = to_uppercase canonical in
    or_default (or_default up (strip_suffix (codes "USDC") up)) (lookup canonical m)

abbrev pub max_decimals_perp : ℕ
max_decimals_perp = 6

module _ (json : Json) where
  open json use {Value, from_str, get}

  abbrev first : List Value → Option Value
  first [] = none
  first (v ∷ _) = some v

  unfoldable pub peek_symbol : Value → Option Text
  unfolding str_field array_field
  peek_symbol v =
      if str_field json (codes "channel") v == some (codes "trades")
      then and_then (and_then (array_field json (codes "data") v) first)
          (str_field json (codes "coin"))
      else none

  -- A deal of unknown direction, or without a price or a size, is left out.
  unfoldable pub parse_deal : SymbolSpec → Value → Result (Option TradePrint)
  unfolding str_field i64_field u64_field aggressor
  parse_deal spec t = elim (aggressor (or_default [] (str_field json (codes "side") t))) [
    | none ↦ ok none
    | some side ↦ elim (str_field json (codes "px") t) [
      | none ↦ ok none
      | some px ↦ elim (str_field json (codes "sz") t) [
        | none ↦ ok none
        | some sz ↦ do
          price ← parse_scaled px spec.price_scale
          qty ← parse_scaled sz spec.qty_scale
          ok (
              some (record {
                exchange_ts_ns = nanoseconds (or_default (pos 0) (i64_field json (codes "time") t));
                aggressor = side;
                price = price;
                qty = qty;
                trade_id = or_default 0 (u64_field json (codes "tid") t);
              }))
      ]
    ]
  ]

  unfoldable pub parse_value : SymbolSpec → Value → Result (List TradePrint)
  unfolding array_field parse_deal usable
  parse_value spec v = elim (array_field json (codes "data") v) [
    | none ↦ ok []
    | some deals ↦ collect_some (parse_deal spec) deals >>= usable deals
  ]

  -- An instrument that is not delisted, and its native name.
  unfoldable pub listed : (Text → Text) → Value → Option (SymbolSpec × Text)
  unfolding str_field u64_field bool_field
  listed to_uppercase item =
      if or_default false (bool_field json (codes "isDelisted") item)
      then none
      else and_then (str_field json (codes "name") item) (λ name.
        let sz_decimals = or_default 0 (u64_field json (codes "szDecimals") item) % 2 ^ 8 in
        some (
          record {
            exchange = hyperliquid_f;
            market_type = perp;
            quote = usdc;
            symbol = to_uppercase name ++ codes "USDC";
            price_scale = max_decimals_perp - sz_decimals;
            qty_scale = sz_decimals;
            tick_size = pos 1;
            step_size = pos 1;
          },
          name,
        ))

  unfoldable pub list_all : (Text → Text) → List Value → NativeMap → List SymbolSpec × NativeMap
  unfolding listed set_native
  list_all to_uppercase [] m = ([], m)
  list_all to_uppercase (item ∷ universe) m = elim (listed to_uppercase item) [
    | none ↦ list_all to_uppercase universe m
    | some (spec, name) ↦
        let (specs, after) = list_all to_uppercase universe (set_native spec.symbol name m) in
        (spec ∷ specs, after)
  ]

  unfoldable pub parse_meta :
      (Text → Text) → Text → NativeMap → Result (List SymbolSpec × NativeMap)
  unfolding array_field list_all
  parse_meta to_uppercase text m = elim (from_str text) [
    | none ↦ err bad_document
    | some v ↦ do
      universe ← require (codes "universe") (array_field json (codes "universe") v)
      ok (list_all to_uppercase universe m)
  ]
