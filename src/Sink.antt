-- ===== src/Sink.antt =====
-- crates/clickhouse-sink/src/lib.rs: the rows of a snapshot and the writer that batches them.
-- Instants and durations are milliseconds; serde_json, the clock and ClickHouse are parameters.
pub mod Json
pub mod Batch
pub mod Bounds
pub mod Url
use Prim.Native.Nat.{min}
use trading_terminal_cluster.Common.{
  ℕ, ◌+◌, ◌-◌, ◌*◌, List, [], ◌∷◌, ◌++◌, Option, none, some, Bool, true, false, ◌&&◌, not,
}
use trading_terminal_cluster.Common.Lists.{length, drop}
use trading_terminal_cluster.Common.Tests.{if◌then◌else◌, leb, ltb}
use trading_terminal_cluster.Common.Int.{ℤ}
use trading_terminal_cluster.Common.Machine.{add_u64, div_i64}
use trading_terminal_cluster.Common.Text.{Text, codes, is_alphanumeric}
use trading_terminal_cluster.Core.{
  MarketType, spot, perp, Quote, usdt, usdc, SymbolSpec, ClusterBucket, AnalyticsSnapshot, wire_id,
}

pub record ClusterRow : Type 0 where
  pub exchange : Text
  pub market_type : Text
  pub quote : Text
  pub symbol : Text
  pub window_start : ℤ
  pub price : ℤ
  pub price_scale : ℕ
  pub bid_qty : ℤ
  pub ask_qty : ℤ
  pub trades : ℕ
  pub qty_scale : ℕ
  pub ingest_region : Text
  pub open_price : ℤ
  pub close_price : ℤ
  pub high_price : ℤ
  pub low_price : ℤ

unfoldable pub market_name : MarketType → Text
market_name spot = codes "spot"
market_name perp = codes "perp"

unfoldable pub quote_name : Quote → Text
quote_name usdt = codes "USDT"
quote_name usdc = codes "USDC"

unfoldable pub row_of : AnalyticsSnapshot → SymbolSpec → Text → ClusterBucket → ClusterRow
unfolding market_name quote_name
row_of snap spec region b = record {
  exchange = wire_id spec.exchange;
  market_type = market_name spec.market_type;
  quote = quote_name spec.quote;
  symbol = spec.symbol;
  window_start = div_i64 snap.window_start_ns 1_000_000;
  price = b.price;
  price_scale = spec.price_scale;
  bid_qty = b.bid_qty;
  ask_qty = b.ask_qty;
  trades = b.trades;
  qty_scale = spec.qty_scale;
  ingest_region = region;
  open_price = snap.open_price;
  close_price = snap.close_price;
  high_price = snap.high_price;
  low_price = snap.low_price;
}

unfoldable pub rows_of :
    AnalyticsSnapshot → SymbolSpec → Text → List ClusterBucket → List ClusterRow
unfolding row_of
rows_of snap spec region [] = []
rows_of snap spec region (b ∷ bs) = row_of snap spec region b ∷ rows_of snap spec region bs

unfoldable pub rows_from_snapshot : AnalyticsSnapshot → SymbolSpec → Text → List ClusterRow
unfolding rows_of
rows_from_snapshot snap spec region = rows_of snap spec region snap.clusters

pub record ChWriterConfig : Type 0 where
  pub batch_size : ℕ
  pub flush_interval : ℕ
  pub max_buffer_rows : ℕ

-- `ChWriterConfig::default()`
abbrev pub default_config : ChWriterConfig
default_config = record { batch_size = 5000; flush_interval = 2000; max_buffer_rows = 300_000 }

abbrev pub backoff_max : ℕ
backoff_max = 30_000

pub record WriterStats : Type 0 where
  pub batches_ok : ℕ
  pub batches_err : ℕ
  pub rows_ok : ℕ
  pub rows_dropped : ℕ

-- The locals of `run`.
pub record Writer : Type 0 where
  pub batch : List ClusterRow
  pub stats : WriterStats
  pub next_attempt : ℕ
  pub backoff : ℕ
  pub last_drop_warn : Option ℕ

-- What one turn of the loop reads: the instants of its three `Instant::now()`, and whether
-- `flush_once` returns `Ok` on a batch.
pub record Env : Type 0 where
  pub drop_time : ℕ
  pub gate_time : ℕ
  pub flush_time : ℕ
  pub accepts : List ClusterRow → Bool

unfoldable pub start : ChWriterConfig → ℕ → Writer
start cfg now = record {
  batch = [];
  stats = record { batches_ok = 0; batches_err = 0; rows_ok = 0; rows_dropped = 0 };
  next_attempt = now;
  backoff = cfg.flush_interval;
  last_drop_warn = none;
}

-- The writer after an attempt, and the rows of an insert that succeeded. On an error it is unknown
-- whether ClickHouse applied the insert: the writer keeps the rows, and sends them again.
unfoldable pub try_flush : ChWriterConfig → Env → Writer → Writer × List ClusterRow
try_flush cfg env w =
    if env.accepts w.batch
    then (
      record w {
        batch = [];
        stats = record w.stats {
          batches_ok = add_u64 w.stats.batches_ok 1;
          rows_ok = add_u64 w.stats.rows_ok (length w.batch);
        };
        backoff = cfg.flush_interval;
        next_attempt = env.flush_time;
      },
      w.batch,
    )
    else (let backoff = min (w.backoff * 2) backoff_max in
        (
          record w {
            stats = record w.stats { batches_err = add_u64 w.stats.batches_err 1 };
            backoff = backoff;
            next_attempt = env.flush_time + backoff;
          },
          [],
        ))

abbrev warn_due : Option ℕ → ℕ → Bool
warn_due none now = true
warn_due (some t) now = leb 5000 (now - t)

-- The oldest rows above the cap are dropped.
unfoldable pub cap : ChWriterConfig → Env → Writer → Writer
cap cfg env w =
    if ltb cfg.max_buffer_rows (length w.batch)
    then (let drop_n = length w.batch - cfg.max_buffer_rows in
        record w {
          batch = drop drop_n w.batch;
          stats = record w.stats { rows_dropped = add_u64 w.stats.rows_dropped drop_n };
          last_drop_warn =
              if warn_due w.last_drop_warn env.drop_time
              then some env.drop_time
              else w.last_drop_warn;
        })
    else w

unfoldable pub on_row : ChWriterConfig → Env → ClusterRow → Writer → Writer × List ClusterRow
unfolding cap try_flush
on_row cfg env row w =
    let v = cap cfg env (record w { batch = w.batch ++ (row ∷ []) }) in
    if leb cfg.batch_size (length v.batch) && leb v.next_attempt env.gate_time
    then try_flush cfg env v
    else (v, [])

abbrev pub is_empty : List ClusterRow → Bool
is_empty [] = true
is_empty (r ∷ rs) = false

unfoldable pub on_tick : ChWriterConfig → Env → Writer → Writer × List ClusterRow
unfolding try_flush
on_tick cfg env w =
    if not (is_empty w.batch) && leb w.next_attempt env.gate_time
    then try_flush cfg env w
    else (w, [])

unfoldable pub on_close : ChWriterConfig → Env → Writer → Writer × List ClusterRow
unfolding try_flush
on_close cfg env w = if not (is_empty w.batch) then try_flush cfg env w else (w, [])

pub data Event : Type 0 where
  row : ClusterRow → Env → Event
  pulse : Env → Event

unfoldable pub turn : ChWriterConfig → Event → Writer → Writer × List ClusterRow
unfolding on_row on_tick
turn cfg (row r env) w = on_row cfg env r w
turn cfg (pulse env) w = on_tick cfg env w

-- The turns while the channel is open.
unfoldable pub turns : ChWriterConfig → List Event → Writer → Writer × List ClusterRow
unfolding turn
turns cfg [] w = (w, [])
turns cfg (e ∷ es) w =
    let (v, taken) = turn cfg e w in let (u, later) = turns cfg es v in (u, taken ++ later)

-- The loop, up to the turn on which the channel is closed.
unfoldable pub run : ChWriterConfig → ℕ → List Event → Env → Writer × List ClusterRow
unfolding turns on_close start
run cfg now es last =
    let (w, taken) = turns cfg es (start cfg now) in
    let (v, rest) = on_close cfg last w in (v, taken ++ rest)
