-- ===== src/Examples/Adapters.antt =====
-- Concrete answers and frames of exchanges, read by the adapters under crates/.
use trading_terminal_cluster.Common.{
  ℕ, Bool, false, [], ◌∷◌, none, some, ◌≡◌, refl, ◌↔◌, arith, map,
}
use trading_terminal_cluster.Common.Int.{pos}
use trading_terminal_cluster.Common.Eq.{nat_eq, list_eq}
use trading_terminal_cluster.Common.Text.{Text, codes, trim}
use trading_terminal_cluster.Common.Json.{Json}
use trading_terminal_cluster.Common.Tests.{ltb}
use trading_terminal_cluster.Common.Map.{contains_key, member}
use trading_terminal_cluster.Core.{
  wire_id, SymbolSpec, SymbolKey, TradePrint, bybit_f, bid, perp, usdt,
}
use trading_terminal_cluster.Core.Wire.{symbol_key_eq}
use trading_terminal_cluster.Scale.{
  ok, split_parts, parse_scaled, count_decimals_trimmed, parse_i64, fraction_value, multiplier,
  combine,
}
use trading_terminal_cluster.Scale.Exact.{Exact, parse_scaled-Exact}
use trading_terminal_cluster.Common.Machine.{saturating_mul}
use trading_terminal_cluster.Common.Pairwise.{Pairwise}
use trading_terminal_cluster.Common.Text.{all_chars, is_digit}
use trading_terminal_cluster.Adapters.{filter_map, collect}
use trading_terminal_cluster.Adapters.Bitget
use trading_terminal_cluster.Adapters.Prints.{frame_data}
use trading_terminal_cluster.Adapters.Prints.Accepted.{BybitTrade, BitgetTrade, parse_value_iff}
use trading_terminal_cluster.Adapters.Bybit
use trading_terminal_cluster.Adapters.Bybit.{linear}
use trading_terminal_cluster.Adapters.Ticks.Fetched.{bybit}
use trading_terminal_cluster.Ingest.Config.{default_binance_perp_config}
use trading_terminal_cluster.Ingest.Universe.{
  wanted_specs, filter_symbols, is_kept, quotes_of, rank_specs, top_n_of,
}
use trading_terminal_cluster.Ingest.Supervisor.{
  Supervisor, new_supervisor, symbol_key, done, reconcile_once,
}
use trading_terminal_cluster.Ingest.Supervisor.Spawn.{Milliseconds, Timeframe, Capacity}
use trading_terminal_cluster.Ingest.Discovery.{Ready, reconcile_once-Fetched}
use trading_terminal_cluster.Examples.Supervisor.{tasks}
use trading_terminal_cluster.Examples.Documents.{
  Document, text, number, end, reading, object, array,
}

abbrev same_case : Text → Text
same_case s = s

-- Bybit's answer: one contract that trades, one that is settling.
abbrev contract : Text → Text → Document
contract symbol status = object (
    (codes "symbol", text symbol)
    ∷ (codes "status", text status)
    ∷ (codes "quoteCoin", text (codes "USDT"))
    ∷ (codes "priceFilter", object ((codes "tickSize", text (codes "0.10")) ∷ []))
    ∷ (codes "lotSizeFilter", object ((codes "qtyStep", text (codes "0.001")) ∷ []))
    ∷ [])

abbrev instruments : Document
instruments = object (
    (codes "retCode", number 0)
    ∷ (
      codes "result",
      object (
          (
            codes "list",
            array (
                contract (codes "BTCUSDT") (codes "Trading")
                ∷ contract (codes "OLDUSDT") (codes "Settling")
                ∷ []),
          )
          ∷ []),
    )
    ∷ [])

abbrev btc : SymbolSpec
btc = record {
  exchange = bybit_f;
  market_type = perp;
  quote = usdt;
  symbol = codes "BTCUSDT";
  price_scale = 1;
  qty_scale = 3;
  tick_size = pos 1;
  step_size = pos 1;
}

answered : Bybit.parse_instruments_info (reading instruments) linear [] ≡ ok (btc ∷ [])
unfolding Bybit.parse_instruments_info filter_map parse_scaled all_chars is_digit parse_i64
    fraction_value count_decimals_trimmed multiplier combine
answered = refl

ready : Ready tasks
unfolding Ready Milliseconds Timeframe Capacity member
ready = (
  (200, refl, omega arith, omega arith),
  (omega arith, omega arith),
  (
    ((60_000, refl, omega arith, omega arith), refl),
    (((300_000, refl, omega arith, omega arith), refl), tt),
  ),
)

abbrev never : ℕ → Bool
never volume = false

kept :
    wanted_specs ltb never 0 default_binance_perp_config bybit_f perp none (btc ∷ [])
    ≡ some (btc ∷ [])
unfolding wanted_specs filter_symbols is_kept quotes_of member rank_specs top_n_of
    default_binance_perp_config wire_id
kept = refl

reconcile_once-Fetched_example :
    (next : Supervisor) × (reconcile_once ltb never 0 tasks default_binance_perp_config bybit_f perp
        none
        (some (btc ∷ []))
        new_supervisor
      ≡ done next)
    × ((q : SymbolKey) → contains_key q next.handles ≡ member q (map symbol_key (btc ∷ [])))
reconcile_once-Fetched_example =
    reconcile_once-Fetched ltb never 0 tasks default_binance_perp_config bybit_f perp none
      (reading instruments) same_case (btc ∷ []) (btc ∷ []) new_supervisor ready kept
      (bybit linear [] answered)

-- A frame of Bybit's with one trade.
abbrev trade : Document
trade = object (
    (codes "T", number 1_700_000_000_000)
    ∷ (codes "S", text (codes "Buy"))
    ∷ (codes "p", text (codes "65000.5"))
    ∷ (codes "v", text (codes "0.012"))
    ∷ (codes "i", text (codes "7"))
    ∷ [])

abbrev frame : Document
frame = object ((codes "data", array (trade ∷ [])) ∷ [])

abbrev told : TradePrint
told = record {
  exchange_ts_ns = pos 1_700_000_000_000_000_000;
  aggressor = bid;
  price = pos 650_005;
  qty = pos 12;
  trade_id = 7;
}

abbrev json : Json
json = reading end

parse_value_iff_example :
    ((Bybit.parse_value json btc frame ≡ ok (told ∷ []))
      ↔ Pairwise (λ t p. BybitTrade json btc t p) (frame_data json frame) (told ∷ []))
    × ((Bitget.parse_value json same_case btc frame ≡ ok (told ∷ []))
        ↔ Pairwise (λ t p. BitgetTrade json btc t p) (frame_data json frame) (told ∷ []))
parse_value_iff_example = parse_value_iff json same_case btc frame (told ∷ [])

bybit_frame : Bybit.parse_value json btc frame ≡ ok (told ∷ [])
unfolding Bybit.parse_value collect parse_scaled parse_i64 fraction_value multiplier combine
    saturating_mul
bybit_frame = refl

parse_scaled-Exact_example :
    Exact (split_parts (codes "0.0010")) (count_decimals_trimmed (codes "0.0010")) (pos 1)
unfolding trim parse_scaled all_chars is_digit parse_i64 fraction_value count_decimals_trimmed
    multiplier combine
parse_scaled-Exact_example = parse_scaled-Exact (codes "0.0010") (pos 1) bare parsed
  where
    bare : trim (codes "0.0010") ≡ codes "0.0010"
    bare = refl

    parsed : parse_scaled (codes "0.0010") (count_decimals_trimmed (codes "0.0010")) ≡ ok (pos 1)
    parsed = refl
