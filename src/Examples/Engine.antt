-- ===== src/Examples/Engine.antt =====
-- Concrete runs of crates/cluster-engine, crates/exchange-core, crates/exchange-binance and
-- crates/cluster-ingest.
use trading_terminal_cluster.Common.{List, [], ◌∷◌, ◌≡◌, refl, arith, none, some, false, ◌&&◌}
use trading_terminal_cluster.Common.Int.{ℤ, pos, ◌+ℤ◌, ◌<ℤ◌}
use trading_terminal_cluster.Common.Lists.{All}
use trading_terminal_cluster.Common.Text.{codes}
use trading_terminal_cluster.Common.Eq.{int_eq}
use trading_terminal_cluster.Common.Map.{member, lookup, insert, set_insert}
use trading_terminal_cluster.Common.Machine.{
  round_to, saturating_add, saturating_add_u32, increment, wrap_i64,
}
use trading_terminal_cluster.Core.{
  binance_f, perp, bid, ask, SymbolKey, StreamKey, TradePrint, ClusterFrame, snapshot,
  AnalyticsSnapshot,
}
use trading_terminal_cluster.Engine.Aggregator.{
  Aggregator, new, positive, ms_to_ns, run, step, record_trade, update_ohlc, add_trade,
  accum_or_default, current_window_delta, buckets_for, Call, trade, pulse, delta, ingest,
}
use trading_terminal_cluster.Engine.Aggregator.Invariant.{WellFormed}
use trading_terminal_cluster.Engine.Aggregator.Footprint.{footprint, window_of, admit, IsBar}
use trading_terminal_cluster.Engine.Aggregator.Footprint.Runs.{
  Represents, observe_all, RegularCall, reported,
}
use trading_terminal_cluster.Engine.Aggregator.Buckets.{find_bucket, bucket_in}
use trading_terminal_cluster.Engine.Aggregator.Follower.{start, receive_all, seen, follower_right}
use trading_terminal_cluster.Engine.Aggregator.Reports.{run-total, run-footprint, run-closing}
use trading_terminal_cluster.Engine.Bus.{ClusterBus}
use trading_terminal_cluster.Engine.Task.{call, stats, Finished, run_aggregator-Finished}

abbrev btc : SymbolKey
btc = record { exchange = binance_f; market_type = perp; symbol = codes "BTCUSDT" }

abbrev btc_1m : StreamKey
btc_1m = record { symbol = btc; interval_seconds = 60 }

abbrev agg : Aggregator
agg = record {
  key = btc;
  bucket_step = 10;
  window_ns = 60_000_000_000;
  diff_interval_ns = pos 100_000_000;
  current_window_start_ns = none;
  sequence = pos 0;
  accum = [];
  dirty = [];
  partial_dirty = [];
  last_diff_emit_ns = pos 0;
  dropped_late_trades = 0;
  open_price = pos 0;
  close_price = pos 0;
  high_price = pos 0;
  low_price = pos 0;
}

made : new btc (pos 10) (pos 60_000) (pos 100) ≡ some agg
unfolding new positive ms_to_ns wrap_i64
made = refl

abbrev buy : TradePrint
buy = record {
  exchange_ts_ns = pos 1_000;
  aggressor = bid;
  price = pos 104;
  qty = pos 5;
  trade_id = 1;
}

abbrev sell : TradePrint
sell = record {
  exchange_ts_ns = pos 2_000;
  aggressor = ask;
  price = pos 107;
  qty = pos 2;
  trade_id = 2;
}

abbrev next_window : TradePrint
next_window = record {
  exchange_ts_ns = pos 60_000_000_001;
  aggressor = ask;
  price = pos 200;
  qty = pos 1;
  trade_id = 3;
}

abbrev some_calls : List Call
some_calls = trade buy ∷ pulse (pos 500_000_000) ∷ trade sell ∷ delta ∷ []

some_calls_regular : All RegularCall some_calls
some_calls_regular = ((refl, omega arith), (tt, ((refl, omega arith), (tt, tt))))

-- After `buy` and `sell`.
abbrev after_two : Aggregator
after_two = record agg {
  current_window_start_ns = some (pos 0);
  accum = (pos 100, record { bid_qty = pos 5; ask_qty = pos 2; trades = 2 }) ∷ [];
  dirty = pos 100 ∷ [];
  partial_dirty = pos 100 ∷ [];
  open_price = pos 104;
  close_price = pos 107;
  high_price = pos 107;
  low_price = pos 104;
}

abbrev two_trades : List Call
two_trades = trade buy ∷ trade sell ∷ []

two_trades_regular : All RegularCall two_trades
two_trades_regular = ((refl, omega arith), ((refl, omega arith), tt))

two_trades-run : run agg two_trades ≡ some (after_two, [])
unfolding run step ingest record_trade update_ohlc add_trade accum_or_default lookup insert member
    set_insert round_to saturating_add saturating_add_u32 ◌+ℤ◌
two_trades-run = refl

two_trades_observed : observe_all agg.window_ns [] two_trades ≡ sell ∷ buy ∷ []
unfolding admit round_to
two_trades_observed = refl

abbrev after_delta : Aggregator
after_delta = record after_two { sequence = pos 1; partial_dirty = [] }

abbrev delta_shown : AnalyticsSnapshot
delta_shown = record {
  window_start_ns = pos 0;
  sequence = pos 1;
  clusters = record { price = pos 100; bid_qty = pos 5; ask_qty = pos 2; trades = 2 } ∷ [];
  open_price = pos 104;
  close_price = pos 107;
  high_price = pos 107;
  low_price = pos 104;
}

abbrev with_delta : List Call
with_delta = trade buy ∷ trade sell ∷ delta ∷ []

with_delta-run : run agg with_delta ≡ some (after_delta, snapshot delta_shown ∷ [])
unfolding run step ingest record_trade update_ohlc add_trade accum_or_default lookup insert member
    set_insert round_to saturating_add saturating_add_u32 ◌+ℤ◌ current_window_delta buckets_for
    increment wrap_i64
with_delta-run = refl

at_100 : (member (pos 100) after_delta.dirty && member (pos 100) after_delta.partial_dirty) ≡ false
unfolding member
at_100 = refl

follower_right_example :
    seen (receive_all start (snapshot delta_shown ∷ [])) (some (pos 0)) (pos 100)
    ≡ bucket_in (pos 100) after_delta.accum
follower_right_example =
    follower_right btc (pos 10) (pos 60_000) (pos 100) agg made (omega arith) with_delta after_delta
      (snapshot delta_shown ∷ []) with_delta-run (pos 100) at_100

run-total_example :
    (z : Aggregator) × (fs : List ClusterFrame) × (run agg some_calls ≡ some (z, fs)) × WellFormed z
run-total_example = run-total btc (pos 10) (pos 60_000) (pos 100) agg made (omega arith) some_calls

run-footprint_example :
    (z : Aggregator) × (fs : List ClusterFrame) × (run agg some_calls ≡ some (z, fs))
    × Represents 10 60_000_000_000 z (observe_all 60_000_000_000 [] some_calls)
run-footprint_example =
    run-footprint btc (pos 10) (pos 60_000) (pos 100) agg made (omega arith) some_calls
      some_calls_regular

next_is_later : window_of 60_000_000_000 sell <ℤ window_of 60_000_000_000 next_window
unfolding round_to
next_is_later = omega arith

run-closing_example :
    (snap : AnalyticsSnapshot) × ((ingest after_two next_window).1 ≡ some (snapshot snap))
    × (snap.window_start_ns ≡ window_of 60_000_000_000 sell)
    × ((p : ℤ) → find_bucket p snap.clusters ≡ reported p (footprint 10 p (sell ∷ buy ∷ [])))
    × IsBar snap.open_price snap.close_price snap.high_price snap.low_price (sell ∷ buy ∷ [])
run-closing_example =
    run-closing btc (pos 10) (pos 60_000) (pos 100) agg made (omega arith) two_trades
      two_trades_regular after_two [] two_trades-run sell (buy ∷ []) two_trades_observed next_window
      next_is_later

abbrev no_channels : ClusterBus (List ClusterFrame)
no_channels = record { channels = []; capacity = 4096 }

run_aggregator-Finished_example :
    Finished
      (λ n. [])
      (λ f c. f ∷ c)
      btc_1m
      agg
      no_channels
      (call (trade buy) ∷ stats ∷ call delta ∷ call (trade next_window) ∷ [])
run_aggregator-Finished_example =
    run_aggregator-Finished (λ n. []) (λ f c. f ∷ c) btc_1m btc (pos 10) (pos 60_000) (pos 100) agg
      made (omega arith) no_channels
      (call (trade buy) ∷ stats ∷ call delta ∷ call (trade next_window) ∷ [])
