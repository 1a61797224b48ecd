-- ===== src/Mexc/Trades.antt =====
-- crates/exchange-mexc/src/mexc_trade.rs: the trades of a binary frame of the spot market.
pub mod Prints
use trading_terminal_cluster.Common.{ℕ, List, [], ◌∷◌, Bool, true, false, Option, none, some}
use trading_terminal_cluster.Common.Int.{ℤ, pos, negsuc}
use trading_terminal_cluster.Common.Machine.{saturating_mul}
use trading_terminal_cluster.Common.Tests.{if◌then◌else◌, nat_beq}
use trading_terminal_cluster.Common.Text.{Text, codes, chars, contains, after_last}
use trading_terminal_cluster.Core.{AggressorSide, bid, ask, SymbolSpec, TradePrint}
use trading_terminal_cluster.Scale
use trading_terminal_cluster.Scale.{ParseError, parse_scaled}
use trading_terminal_cluster.Mexc.Protobuf.{
  Bytes, Decoded, decoded, malformed, out_of_fuel, Wrapper, decode_wrapper, Deal, decode_deals,
}

unfoldable pub aggressor : ℤ → Option AggressorSide
aggressor (pos n) = if nat_beq n 1 then some bid else if nat_beq n 2 then some ask else none
aggressor (negsuc n) = none

-- The wrapper of a frame of deals.
unfoldable pub deals_frame : Decoded Wrapper → Option Wrapper
deals_frame (decoded w) = if contains (codes "deals") w.channel then some w else none
deals_frame _ = none

unfoldable pub peek_symbol : (Text → Text) → Bytes → Option Text
unfolding deals_frame
peek_symbol to_uppercase raw = elim (deals_frame (decode_wrapper raw)) [
  | none ↦ none
  | some w ↦ some (to_uppercase (after_last b'@' w.channel))
]

-- The trades, or an error: the body does not decode, or a number does not parse.
pub data Trades : Type 0 where
  trades : List TradePrint → Trades
  bad_body : Trades
  bad_number : ParseError → Trades

unfoldable pub cons_trade : TradePrint → Trades → Trades
cons_trade t (trades ts) = trades (t ∷ ts)
cons_trade t bad_body = bad_body
cons_trade t (bad_number e) = bad_number e

-- The time in nanoseconds; the exchange gives no id.
unfoldable pub print_of : Deal → AggressorSide → ℤ → ℤ → TradePrint
print_of d side price qty = record {
  exchange_ts_ns = saturating_mul d.time (pos 1_000_000);
  aggressor = side;
  price = price;
  qty = qty;
  trade_id = 0;
}

-- The first error of the loop is the result.
unfoldable pub trades_of : SymbolSpec → List Deal → Trades
unfolding aggressor cons_trade print_of
trades_of spec [] = trades []
trades_of spec (d ∷ deals) =
    let rest = trades_of spec deals in
    elim (aggressor d.trade_type) [
      | none ↦ rest
      | some side ↦ elim (parse_scaled (chars d.price) spec.price_scale) [
        | Scale.err e ↦ bad_number e
        | Scale.ok price ↦ elim (parse_scaled (chars d.quantity) spec.qty_scale) [
          | Scale.err e ↦ bad_number e
          | Scale.ok qty ↦ cons_trade (print_of d side price qty) rest
        ]
      ]
    ]

unfoldable pub trades_of_body : SymbolSpec → Decoded (List Deal) → Trades
unfolding trades_of
trades_of_body spec (decoded deals) = trades_of spec deals
trades_of_body spec _ = bad_body

unfoldable pub parse_value : Bytes → SymbolSpec → Trades
unfolding deals_frame trades_of_body
parse_value raw spec = elim (deals_frame (decode_wrapper raw)) [
  | none ↦ trades []
  | some w ↦ trades_of_body spec (decode_deals w.body)
]
