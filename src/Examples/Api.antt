-- ===== src/Examples/Api.antt =====
-- Concrete runs of crates/cluster-api, crates/exchange-binance and crates/cluster-ingest.
use trading_terminal_cluster.Common.{
  ℕ, ◌<◌, ◌≤◌, List, [], ◌∷◌, ◌≡◌, refl, arith, Option, none, some, ◌↔◌, false,
}
use trading_terminal_cluster.Common.Int.{pos}
use trading_terminal_cluster.Common.Lists.{length, take}
use trading_terminal_cluster.Common.Machine.{max_u64, add_u64}
use trading_terminal_cluster.Common.Text.{Text, codes, trim, all_chars, is_digit}
use trading_terminal_cluster.Common.Map.{lookup, insert}
use trading_terminal_cluster.Core.Wire.{parse_exchange, parse_market_type, market_type_wire}
use trading_terminal_cluster.Core.{wire_id}
use trading_terminal_cluster.Core.{binance_f, perp, SymbolKey, ClusterFrame}
use trading_terminal_cluster.Scale.{
  parse_scaled, parse_parts, parse_i64, fraction_value, multiplier, combine, split_parts,
}
use trading_terminal_cluster.Scale
use trading_terminal_cluster.Api.Stream
use trading_terminal_cluster.Scale.Sound.{Scaled, parse_scaled-Scaled}
use trading_terminal_cluster.Ingest.{
  Payload, undecodable, parsed, sent, full, handle_all, handle_payload, detect_gap, count_gap,
  count_sent,
}
use trading_terminal_cluster.Ingest.Gaps.{fresh, sum_lasts, see_all, Accounted, handle_all-accounts}
use trading_terminal_cluster.Engine.Bus.{ClusterBus, subscribe}
use trading_terminal_cluster.Api.Timeframes.{
  table_name_for, interval_of_table, interval_of_table-table_name_for,
}
use trading_terminal_cluster.Api.Range.{max_bars, RangeParams}
use trading_terminal_cluster.Api.Range.Rows.{
  Value, number, string, Row, Columns, no_columns, parse_rows,
}
use trading_terminal_cluster.Api.Range.Columns.{Appended, Bar, Told, parse_rows-Columns}
use trading_terminal_cluster.Api.Range.Handler.{Answer, body}
use trading_terminal_cluster.Api.Stream.{
  ProtoKey, symbol_key_from_proto, proto_key_from_domain, proto_key-round_trip, handle_subscribe,
  subscribe_all, SubscribeRequest, keys_of, handle_subscribe-keys_of, is_empty,
}

parsed_price : parse_scaled (codes " 67.23450 ") 2 ≡ Scale.ok (pos 6723)
unfolding parse_scaled parse_parts parse_i64 fraction_value multiplier combine split_parts trim
    all_chars is_digit
parsed_price = refl

parse_scaled-Scaled_example :
    Scaled
      (split_parts (trim (codes " 67.23450 "))).0
      (split_parts (trim (codes " 67.23450 "))).1
      2
      (pos 6723)
parse_scaled-Scaled_example = parse_scaled-Scaled (codes " 67.23450 ") 2 (pos 6723) parsed_price

abbrev session : List (ℕ × Payload)
session =
    (0, parsed (codes "BTCUSDT") 10 sent)
    ∷ (1, undecodable)
    ∷ (2, parsed (codes "BTCUSDT") 14 sent)
    ∷ (3, parsed (codes "BTCUSDT") 12 full)
    ∷ (4, parsed (codes "ETHUSDT") 5 sent)
    ∷ []

session_sum : sum_lasts (handle_all session fresh).gap_state ≡ 19
unfolding handle_all handle_payload detect_gap count_gap count_sent sum_lasts lookup insert add_u64
session_sum = refl

session_small : sum_lasts (handle_all session fresh).gap_state < max_u64
session_small = omega (arith, session_sum)

handle_all-accounts_example :
    Accounted
      (handle_all session fresh)
      (see_all session fresh (record { firsts = 0; in_order = 0 }))
handle_all-accounts_example = handle_all-accounts session session_small

interval_of_table-table_name_for_example : interval_of_table (table_name_for 7200) ≡ 7200
interval_of_table-table_name_for_example = interval_of_table-table_name_for 7200 (omega arith)

-- Every line that is not empty reads as one row.
abbrev one_line : Text → Option (List Value)
one_line s = some (
    string (codes "60000")
    ∷ number (some (pos 100)) (some 100)
    ∷ number (some (pos 5)) (some 5)
    ∷ number (some (pos 2)) (some 2)
    ∷ number (some (pos 3)) (some 3)
    ∷ number (some (pos 1)) (some 1)
    ∷ number (some (pos 3)) (some 3)
    ∷ number (some (pos 99)) (some 99)
    ∷ number (some (pos 101)) (some 101)
    ∷ number (some (pos 110)) (some 110)
    ∷ string (codes "90")
    ∷ [])

parse_rows-Columns_example :
    (rows : List (Row × Bar)) × Told one_line (codes "[a]" ∷ [] ∷ codes "[b]" ∷ []) rows
    × Appended no_columns
        (parse_rows one_line (codes "[a]" ∷ [] ∷ codes "[b]" ∷ []) none no_columns)
        none
        (take max_bars rows)
parse_rows-Columns_example = parse_rows-Columns one_line (codes "[a]" ∷ [] ∷ codes "[b]" ∷ [])

abbrev an_hour : RangeParams
an_hour = record {
  exchange = codes "BINANCEF";
  market_type = codes "perp";
  symbol = codes "BTCUSDT";
  interval_seconds = 300;
  from_ms = pos 0;
  to_ms = pos 3_600_000;
}

abbrev answers : Text → Answer
answers sql = body (codes "[a]" ∷ codes "[b]" ∷ [])

abbrev an_hour_columns : Columns
an_hour_columns = parse_rows one_line (codes "[a]" ∷ codes "[b]" ∷ []) none no_columns

abbrev btc : SymbolKey
btc = record { exchange = binance_f; market_type = perp; symbol = codes "BTCUSDT" }

abbrev proto_btc : ProtoKey
proto_btc = record {
  exchange = codes "BINANCEF";
  market_type = codes "PERP";
  symbol = codes "BTCUSDT";
}

proto_key-round_trip_example :
    (symbol_key_from_proto proto_btc ≡ Stream.ok btc)
    ↔ ((proto_key_from_domain btc ≡ proto_btc) × (is_empty (codes "BTCUSDT") ≡ false))
proto_key-round_trip_example = proto_key-round_trip proto_btc btc

abbrev no_channels : ClusterBus (List ClusterFrame)
no_channels = record { channels = []; capacity = 4096 }

abbrev attach : List ClusterFrame → List ClusterFrame × ℕ
attach c = (c, length c)

abbrev request : SubscribeRequest
request = record { symbols = proto_btc ∷ []; interval_seconds = 0 }

granted :
    (handle_subscribe (λ n. []) (λ f c. f ∷ c) attach request no_channels).1
    ≡ Stream.ok ((proto_btc, 0) ∷ [])
unfolding handle_subscribe subscribe_all symbol_key_from_proto proto_key_from_domain parse_exchange
    parse_market_type wire_id market_type_wire subscribe lookup
granted = refl

handle_subscribe-keys_of_example :
    (keys_of {Receiver = ℕ} ((proto_btc, 0) ∷ []) ≡ proto_btc ∷ []) × (1 ≤ 1) × (1 ≤ 1024)
handle_subscribe-keys_of_example =
    handle_subscribe-keys_of (λ n. []) (λ f c. f ∷ c) attach request no_channels
      ((proto_btc, 0) ∷ []) granted
