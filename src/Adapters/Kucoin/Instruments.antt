-- ===== src/Adapters/Kucoin/Instruments.antt =====
-- crates/exchange-kucoin/src/instruments_info.rs: the parser of the list of instruments.
use trading_terminal_cluster.Common.{ℕ, List, [], ◌++◌, Bool, false, not, Option, none, some}
use trading_terminal_cluster.Common.Tests.{if◌then◌else◌}
use trading_terminal_cluster.Common.Int.{ℤ, pos, leb_ℤ}
use trading_terminal_cluster.Common.Eq.{◌==◌, nat_eq, list_eq, option_eq}
use trading_terminal_cluster.Common.Text.{Text, codes}
use trading_terminal_cluster.Common.Slices.{remove_char}
use trading_terminal_cluster.Common.Json.{
  Json, and_then, or_else, or_default, str_field, array_field, bool_field,
}
use trading_terminal_cluster.Core.{
  Exchange, kucoin, kucoin_f, MarketType, spot, perp, Quote, SymbolSpec,
}
use trading_terminal_cluster.Scale.{
  Result, ok, err, is_empty, bad_document, bad_code, parse_scaled, count_decimals_trimmed,
}
use trading_terminal_cluster.Adapters
use trading_terminal_cluster.Adapters.{require, at_least_one, ok_or_none, make_spec}
use trading_terminal_cluster.Adapters.Okx.{CtMap, multiply_decimal_strs}
use trading_terminal_cluster.Adapters.Okx.Instruments.{Turn, skipped, panicked, pushed, turns_of}
use trading_terminal_cluster.Adapters.Kucoin.{norm_base, decimal_fraction}

pub data KucoinCategory : Type 0 where
  futures spot_pairs : KucoinCategory

unfoldable pub market_of : KucoinCategory → Exchange × MarketType
market_of futures = (kucoin_f, perp)
market_of spot_pairs = (kucoin, spot)

-- A tick or step at its scale, `unwrap_or(1).max(1)`.
unfoldable pub step_of : Text → ℕ → ℤ
unfolding at_least_one
step_of s scale = at_least_one (ok_or_none (parse_scaled s scale))

-- The contract of a tick that is known to be good: its lot, its contract value, and the push.
unfoldable pub contract_turn : Exchange × MarketType → Quote → Text → Text → Text → Text → ℤ → Turn
unfolding multiply_decimal_strs decimal_fraction step_of make_spec
contract_turn market quote symbol tick_str lot_str mult_str tick_size =
    let price_scale = count_decimals_trimmed tick_str in
    elim (multiply_decimal_strs lot_str mult_str) [
      | none ↦ panicked
      | some lot ↦ elim (decimal_fraction mult_str) [
        | none ↦ panicked
        | some ct ↦
            let qty_scale = count_decimals_trimmed lot in
            pushed
              (make_spec market quote symbol
                (price_scale, qty_scale, tick_size, step_of lot qty_scale))
              (some ct)
      ]
    ]

unfoldable pub futures_turn : Quote → Text → Text → Text → Text → Turn
unfolding contract_turn market_of
futures_turn quote symbol tick_str lot_str mult_str =
    elim (parse_scaled tick_str (count_decimals_trimmed tick_str)) [
      | err _ ↦ skipped
      | ok tick_size ↦
          if leb_ℤ tick_size (pos 0)
          then skipped
          else contract_turn (market_of futures) quote symbol tick_str lot_str mult_str tick_size
    ]

unfoldable pub spot_turn : Quote → Text → Text → Text → Turn
unfolding step_of make_spec market_of
spot_turn quote symbol tick_str step_str =
    let price_scale = count_decimals_trimmed tick_str in
    let qty_scale = count_decimals_trimmed step_str in
    pushed
      (make_spec (market_of spot_pairs) quote symbol
        (price_scale, qty_scale, step_of tick_str price_scale, step_of step_str qty_scale))
      none

module _ (json : Json) (to_uppercase : Text → Text) where
  open json use {Value, from_str, get, as_str, number_text}

  unfoldable pub num_or_str : Text → Value → Option Text
  num_or_str key v = and_then (get key v) (λ f. or_else (as_str f) (number_text f))

  -- A contract whose status is given and is not "Open", and a pair whose trading is off.
  unfoldable pub is_closed : KucoinCategory → Value → Bool
  unfolding str_field bool_field
  is_closed futures s = elim (str_field json (codes "status") s) [
    | none ↦ false
    | some status ↦ not (status == codes "Open")
  ]
  is_closed spot_pairs s = elim (bool_field json (codes "enableTrading") s) [
    | none ↦ false
    | some enabled ↦ not enabled
  ]

  -- The canonical symbol; nothing where the loop goes on to the next instrument.
  unfoldable pub symbol_of : KucoinCategory → Text → Value → Option Text
  unfolding str_field norm_base remove_char
  symbol_of futures quote_str s =
      let base = or_default [] (str_field json (codes "baseCurrency") s) in
      if is_empty base then none else some (norm_base to_uppercase base ++ to_uppercase quote_str)
  symbol_of spot_pairs quote_str s =
      and_then (str_field json (codes "symbol") s)
        (λ sym. some (to_uppercase (remove_char b'-' sym)))

  unfoldable pub push_turn : KucoinCategory → Quote → Text → Value → Turn
  unfolding num_or_str futures_turn spot_turn
  push_turn futures quote symbol s =
      futures_turn quote symbol (or_default (codes "0.1") (num_or_str (codes "tickSize") s))
        (or_default (codes "1") (num_or_str (codes "lotSize") s))
        (or_default (codes "1") (num_or_str (codes "multiplier") s))
  push_turn spot_pairs quote symbol s =
      spot_turn quote symbol (or_default (codes "0.0001") (num_or_str (codes "priceIncrement") s))
        (or_default (codes "0.0001") (num_or_str (codes "baseIncrement") s))

  -- A turn of the loop over the instruments.
  unfoldable pub turn : KucoinCategory → Value → Turn
  unfolding is_closed str_field Adapters.quote_of symbol_of push_turn
  turn category s =
      if is_closed category s then skipped else (elim (str_field json (codes "quoteCurrency") s) [
        | none ↦ skipped
        | some quote_str ↦ elim (Adapters.quote_of quote_str) [
          | none ↦ skipped
          | some quote ↦ elim (symbol_of category quote_str s) [
            | none ↦ skipped
            | some symbol ↦ push_turn category quote symbol s
          ]
        ]
      ])

  unfoldable pub data_list : Text → Result (List Value)
  unfolding str_field array_field
  data_list text = elim (from_str text) [
    | none ↦ err bad_document
    | some v ↦
        if str_field json (codes "code") v == some (codes "200000")
        then require (codes "data") (array_field json (codes "data") v)
        else err bad_code
  ]

  -- The instruments, and the contract values after them; none is a panic.
  unfoldable pub parse_instruments :
      KucoinCategory → Text → CtMap → Option (Result (List SymbolSpec × CtMap))
  unfolding data_list turn turns_of
  parse_instruments category text m = elim (data_list text) [
    | err e ↦ some (err e)
    | ok list ↦ and_then (turns_of (turn category) list m) (λ out. some (ok out))
  ]
