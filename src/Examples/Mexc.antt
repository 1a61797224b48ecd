-- ===== src/Examples/Mexc.antt =====
-- A concrete frame of crates/exchange-mexc.
use trading_terminal_cluster.Common.{◌<◌, ◌^◌, [], ◌∷◌, map, true, ◌≡◌, ◌≢◌, refl, arith}
use trading_terminal_cluster.Common.Int.{pos}
use trading_terminal_cluster.Common.Lists.{length, All}
use trading_terminal_cluster.Common.Text.{
  Text, codes, contains, starts_with, is_utf8, utf8_from, utf8_follow, chars, all_chars, is_digit,
}
use trading_terminal_cluster.Common.Machine.{saturating_mul}
use trading_terminal_cluster.Scale.{parse_scaled, parse_i64, fraction_value, multiplier, combine}
use trading_terminal_cluster.Core.{SymbolSpec, TradePrint, mexc, spot, usdt, bid}
use trading_terminal_cluster.Mexc.Protobuf.{out_of_fuel, decode_wrapper, decode_deal, decode_deals}
use trading_terminal_cluster.Mexc.Protobuf.Varint.{encode_varint, varint_bytes}
use trading_terminal_cluster.Mexc.Protobuf.Fields.{encode_bytes}
use trading_terminal_cluster.Mexc.Protobuf.Ending.{decode-ends}
use trading_terminal_cluster.Mexc.Protobuf.Deals.{
  SentDeal, deal_of, encode_deal, encode_deals, Sendable,
}
use trading_terminal_cluster.Mexc.Trades.{
  parse_value, trades, trades_of, aggressor, cons_trade, print_of,
}
use trading_terminal_cluster.Mexc.Trades.Prints.{
  encode_frame, parse_value-encode_frame, Printed, trades_of-Printed,
}

decode-ends_example :
    (decode_wrapper (0x0a ∷ 0x02 ∷ 0x41 ∷ []) ≢ out_of_fuel)
    × (decode_deal (0x0a ∷ 0x02 ∷ 0x41 ∷ []) ≢ out_of_fuel)
    × (decode_deals (0x0a ∷ 0x02 ∷ 0x41 ∷ []) ≢ out_of_fuel)
decode-ends_example = decode-ends (0x0a ∷ 0x02 ∷ 0x41 ∷ [])

abbrev bought : SentDeal
bought = record {
  price = codes "67.5";
  quantity = codes "0.25";
  trade_type = 1;
  time = 1_700_000_000_000;
}

abbrev unknown : SentDeal
unknown = record { price = codes "68"; quantity = codes "1"; trade_type = 3; time = 0 }

both_Sendable : All Sendable (bought ∷ unknown ∷ [])
unfolding Sendable is_utf8 utf8_from utf8_follow encode_deal encode_bytes encode_varint varint_bytes
both_Sendable = (
  ((omega arith, refl, omega arith), (omega arith, refl), (omega arith, omega arith), omega arith),
  (
    (
      (omega arith, refl, omega arith),
      (omega arith, refl),
      (omega arith, omega arith),
      omega arith,
    ),
    tt,
  ),
)

abbrev spec : SymbolSpec
spec = record {
  exchange = mexc;
  market_type = spot;
  quote = usdt;
  symbol = codes "BTCUSDT";
  price_scale = 2;
  qty_scale = 3;
  tick_size = pos 1;
  step_size = pos 1;
}

abbrev channel : Text
channel = codes "spot@public.aggre.deals.v3.api.pb@100ms@BTCUSDT"

channel_utf8 : is_utf8 channel ≡ true
unfolding is_utf8 utf8_from utf8_follow
channel_utf8 = refl

channel_deals : contains (codes "deals") channel ≡ true
unfolding contains starts_with
channel_deals = refl

deals_fit : length (encode_deals (bought ∷ unknown ∷ [])) < 2 ^ 64
unfolding encode_deals encode_deal encode_bytes encode_varint varint_bytes
deals_fit = omega arith

parse_value-encode_frame_example :
    parse_value (encode_frame channel (encode_deals (bought ∷ unknown ∷ []))) spec
    ≡ trades_of spec (map deal_of (bought ∷ unknown ∷ []))
parse_value-encode_frame_example =
    parse_value-encode_frame spec channel (bought ∷ unknown ∷ []) (omega arith) channel_utf8
      (omega arith) channel_deals both_Sendable deals_fit

abbrev bought_print : TradePrint
bought_print = record {
  exchange_ts_ns = pos 1_700_000_000_000_000_000;
  aggressor = bid;
  price = pos 6750;
  qty = pos 250;
  trade_id = 0;
}

two_deals_parsed : trades_of spec (map deal_of (bought ∷ unknown ∷ [])) ≡ trades (bought_print ∷ [])
unfolding trades_of aggressor cons_trade print_of deal_of parse_scaled chars all_chars is_digit
    parse_i64 fraction_value multiplier combine saturating_mul
two_deals_parsed = refl

trades_of-Printed_example : Printed spec (map deal_of (bought ∷ unknown ∷ [])) (bought_print ∷ [])
trades_of-Printed_example =
    trades_of-Printed spec (map deal_of (bought ∷ unknown ∷ [])) (bought_print ∷ [])
      two_deals_parsed
