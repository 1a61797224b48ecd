-- ===== src/Adapters/Okx/Trades.antt =====
-- crates/exchange-okx/src/okx_trade.rs: the trades of a frame, with contracts as amounts of the base.
use trading_terminal_cluster.Common.{List, [], ◌∷◌, Option, none, some}
use trading_terminal_cluster.Common.Tests.{if◌then◌else◌}
use trading_terminal_cluster.Common.Int.{ℤ, pos, ◌*ℤ◌}
use trading_terminal_cluster.Common.Machine.{max_i64}
use trading_terminal_cluster.Common.Eq.{◌==◌, nat_eq, list_eq}
use trading_terminal_cluster.Common.Text.{Text, codes}
use trading_terminal_cluster.Common.Json.{Json, and_then, or_else, str_field, array_field}
use trading_terminal_cluster.Common.Parse.{parse_signed_to}
use trading_terminal_cluster.Common.Division.{quotient, wrap_to}
use trading_terminal_cluster.Core.{AggressorSide, bid, ask, spot, perp, SymbolSpec, TradePrint}
use trading_terminal_cluster.Scale.{Result, ok, err, unknown_side}
use trading_terminal_cluster.Adapters.{Fields, read_print, require}
use trading_terminal_cluster.Adapters.Okx.{CtMap, get_ct, normalize_inst_id}

unfoldable pub aggressor : Text → Result AggressorSide
aggressor s =
    if s == codes "buy" then ok bid else if s == codes "sell" then ok ask else err unknown_side

-- `raw * ct_n / ct_d`; none is a panic.
unfoldable pub to_base : ℤ → ℤ × ℤ → Option ℤ
unfolding wrap_to ◌*ℤ◌ quotient
to_base raw (ct_n, ct_d) = quotient max_i64 (wrap_to max_i64 (raw *ℤ ct_n)) ct_d

-- Only a swap has a contract value.
unfoldable pub contract_of : SymbolSpec → CtMap → ℤ × ℤ
unfolding get_ct
contract_of spec m = elim (spec.market_type) [ perp ↦ get_ct spec.symbol m | spot ↦ (pos 1, pos 1) ]

-- A trade before its quantity is converted.
unfoldable pub convert : ℤ × ℤ → TradePrint → Option TradePrint
unfolding to_base
convert ct p = and_then (to_base p.qty ct) (λ qty. some (record p { qty = qty }))

-- The result of a loop that may panic.
unfoldable pub cons_print :
    TradePrint → Option (Result (List TradePrint)) → Option (Result (List TradePrint))
cons_print p none = none
cons_print p (some (err e)) = some (err e)
cons_print p (some (ok ps)) = some (ok (p ∷ ps))

module _ (json : Json) where
  open json use {Value, get, as_str, as_i64}

  unfoldable pub peek_symbol : (Text → Text) → Value → Option Text
  unfolding str_field normalize_inst_id
  peek_symbol to_uppercase v =
      and_then (and_then (get (codes "arg") v) (str_field json (codes "instId"))) (λ inst.
        and_then (and_then (get (codes "arg") v) (str_field json (codes "channel"))) (λ channel.
          if channel == codes "trades" then some (normalize_inst_id to_uppercase inst) else none))

  unfoldable pub time_of : Value → Option ℤ
  unfolding parse_signed_to
  time_of t =
      and_then (get (codes "ts") t)
        (λ x. or_else (and_then (as_str x) (parse_signed_to max_i64)) (as_i64 x))

  unfoldable pub fields_of : Value → Fields
  unfolding str_field time_of
  fields_of t = record {
    time_ms = require (codes "ts") (time_of t);
    side = require (codes "side") (str_field json (codes "side") t);
    price = require (codes "px") (str_field json (codes "px") t);
    size = require (codes "sz") (str_field json (codes "sz") t);
    id = str_field json (codes "tradeId") t;
  }

  -- Its quantity is still in contracts.
  unfoldable pub read_trade : SymbolSpec → Value → Result TradePrint
  unfolding fields_of aggressor read_print
  read_trade spec t = read_print aggressor spec (fields_of t)

  -- None is a panic.
  unfoldable pub parse_trade : SymbolSpec → ℤ × ℤ → Value → Option (Result TradePrint)
  unfolding read_trade convert
  parse_trade spec ct t = elim (read_trade spec t) [
    | err e ↦ some (err e)
    | ok p ↦ and_then (convert ct p) (λ q. some (ok q))
  ]

  -- The first error or panic ends the loop.
  unfoldable pub parse_trades : SymbolSpec → ℤ × ℤ → List Value → Option (Result (List TradePrint))
  unfolding parse_trade cons_print
  parse_trades spec ct [] = some (ok [])
  parse_trades spec ct (t ∷ ts) =
      let rest = parse_trades spec ct ts in
      elim (parse_trade spec ct t) [
        | none ↦ none
        | some (err e) ↦ some (err e)
        | some (ok p) ↦ cons_print p rest
      ]

  unfoldable pub parse_value : CtMap → SymbolSpec → Value → Option (Result (List TradePrint))
  unfolding array_field parse_trades contract_of
  parse_value m spec v = elim (array_field json (codes "data") v) [
    | none ↦ some (ok [])
    | some trades ↦ parse_trades spec (contract_of spec m) trades
  ]
