-- ===== src/Engine/Aggregator.antt =====
-- crates/cluster-engine/src/aggregator.rs: one symbol's footprint over one kind of window, as a release
-- build computes it: arithmetic wraps. Times and prices are `i64`s; the price step, which the
-- constructor asserts to be positive, is a natural number. So is the window, by its size: where
-- `window_ms * 1_000_000` has wrapped to a negative number, the division and the multiplication of
-- `ingest` change the sign twice.
pub mod Buckets
pub mod Invariant
pub mod Steps
pub mod Footprint
pub mod Reports
pub mod Follower
use trading_terminal_cluster.Common.{
  ℕ, suc, ◌*◌, List, [], ◌∷◌, Option, none, some, Bool, true, false,
}
use trading_terminal_cluster.Common.Tests.{if◌then◌else◌, leb, nat_beq}
use trading_terminal_cluster.Common.Int.{ℤ, pos, negsuc, ltb_ℤ, int_beq}
use trading_terminal_cluster.Common.Machine.{
  wrap_i64, round_to, increment, saturating_add, saturating_sub, saturating_add_u32, add_u64,
}
use trading_terminal_cluster.Common.Eq.{int_eq}
use trading_terminal_cluster.Common.Map.{lookup, insert, set_insert}
use trading_terminal_cluster.Core.{
  AggressorSide, bid, ask, TradePrint, ClusterBucket, SymbolKey, ClusterFrame, snapshot, diff,
}

pub record ClusterAccum : Type 0 where
  pub bid_qty : ℤ
  pub ask_qty : ℤ
  pub trades : ℕ

-- `ClusterAccum::default()`
abbrev pub no_volume : ClusterAccum
no_volume = record { bid_qty = pos 0; ask_qty = pos 0; trades = 0 }

pub record Aggregator : Type 0 where
  pub key : SymbolKey
  pub bucket_step : ℕ
  pub window_ns : ℕ
  pub diff_interval_ns : ℤ
  pub current_window_start_ns : Option ℤ
  pub sequence : ℤ
  pub accum : List (ℤ × ClusterAccum)
  pub dirty : List ℤ
  pub partial_dirty : List ℤ
  pub last_diff_emit_ns : ℤ
  pub dropped_late_trades : ℕ
  pub open_price : ℤ
  pub close_price : ℤ
  pub high_price : ℤ
  pub low_price : ℤ

-- `none` is a panic: a failed assertion.
unfoldable pub positive : ℤ → Option ℕ
positive (pos n) = if leb 1 n then some n else none
positive (negsuc n) = none

unfoldable pub ms_to_ns : ℤ → Option ℤ
unfolding positive wrap_i64
ms_to_ns ms = elim (positive ms) [ none ↦ none | some n ↦ some (wrap_i64 (pos (n * 1_000_000))) ]

abbrev size : ℤ → ℕ
size (pos n) = n
size (negsuc n) = suc n

infixl 5 ◌>>=◌
abbrev pub ◌>>=◌ {ℓ κ} : {A : Type ℓ} {B : Type κ} → Option A → (A → Option B) → Option B
none >>= f = none
some a >>= f = f a

unfoldable pub new : SymbolKey → ℤ → ℤ → ℤ → Option Aggregator
unfolding positive ms_to_ns
new key bucket_step window_ms diff_interval_ms = do
  step ← positive bucket_step
  window_ns ← ms_to_ns window_ms
  diff_ns ← ms_to_ns diff_interval_ms
  some (record {
    key = key;
    bucket_step = step;
    window_ns = size window_ns;
    diff_interval_ns = diff_ns;
    current_window_start_ns = none;
    sequence = pos 0;
    accum = [];
    dirty = [];
    partial_dirty = [];
    last_diff_emit_ns = pos 0;
    dropped_late_trades = 0;
    open_price = pos 0;
    close_price = pos 0;
    high_price = pos 0;
    low_price = pos 0;
  })

abbrev pub bucket_of : ℤ → ClusterAccum → ClusterBucket
bucket_of price acc = record {
  price = price;
  bid_qty = acc.bid_qty;
  ask_qty = acc.ask_qty;
  trades = acc.trades;
}

abbrev pub window_or_zero : Option ℤ → ℤ
window_or_zero none = pos 0
window_or_zero (some w) = w

unfoldable pub all_buckets : List (ℤ × ClusterAccum) → List ClusterBucket
all_buckets [] = []
all_buckets ((price, acc) ∷ m) = bucket_of price acc ∷ all_buckets m

-- The state after, and the frame.
unfoldable pub build_closing_snapshot : Aggregator → Aggregator × ClusterFrame
build_closing_snapshot a =
    let seq = increment a.sequence in
    (
      record a { sequence = seq },
      snapshot (record {
        window_start_ns = window_or_zero a.current_window_start_ns;
        sequence = seq;
        clusters = all_buckets a.accum;
        open_price = a.open_price;
        close_price = a.close_price;
        high_price = a.high_price;
        low_price = a.low_price;
      }),
    )

-- The accumulators, sets and prices that a roll and a flush clear.
abbrev pub cleared : Option ℤ → Aggregator → Aggregator
cleared window a = record a {
  current_window_start_ns = window;
  sequence = pos 0;
  accum = [];
  dirty = [];
  partial_dirty = [];
  last_diff_emit_ns = pos 0;
  open_price = pos 0;
  close_price = pos 0;
  high_price = pos 0;
  low_price = pos 0;
}

-- `entry(..).or_default()` and the additions to it.
unfoldable pub accum_or_default : ℤ → List (ℤ × ClusterAccum) → ClusterAccum
accum_or_default price m = elim (lookup price m) [ none ↦ no_volume | some acc ↦ acc ]

unfoldable pub add_trade : ClusterAccum → AggressorSide → ℤ → ClusterAccum
add_trade acc bid qty = record acc {
  bid_qty = saturating_add acc.bid_qty qty;
  trades = saturating_add_u32 acc.trades 1;
}
add_trade acc ask qty = record acc {
  ask_qty = saturating_add acc.ask_qty qty;
  trades = saturating_add_u32 acc.trades 1;
}

unfoldable pub update_ohlc : Aggregator → ℤ → Aggregator
update_ohlc a price =
    if int_beq a.open_price (pos 0)
    then record a { open_price = price; high_price = price; low_price = price; close_price = price }
    else record a {
      high_price = if ltb_ℤ a.high_price price then price else a.high_price;
      low_price = if ltb_ℤ price a.low_price then price else a.low_price;
      close_price = price;
    }

-- What `ingest` does with a trade of the current window.
unfoldable pub record_trade : Aggregator → TradePrint → Aggregator
record_trade a t =
    let bucket_price = round_to t.price a.bucket_step in
    let acc = add_trade (accum_or_default bucket_price a.accum) t.aggressor t.qty in
    update_ohlc
      (record a {
        accum = insert bucket_price acc a.accum;
        dirty = set_insert bucket_price a.dirty;
        partial_dirty = set_insert bucket_price a.partial_dirty;
      })
      t.price

unfoldable pub ingest : Aggregator → TradePrint → Aggregator × Option ClusterFrame
unfolding build_closing_snapshot
ingest a t =
    let trade_window = round_to t.exchange_ts_ns a.window_ns in
    elim a.current_window_start_ns [
      | none ↦ (record_trade (record a { current_window_start_ns = some trade_window }) t, none)
      | some curr ↦
          if ltb_ℤ curr trade_window
          then (let (closed, frame) = build_closing_snapshot a in
              (record_trade (cleared (some trade_window) closed) t, some frame))
          else if ltb_ℤ trade_window curr
          then (record a { dropped_late_trades = add_u64 a.dropped_late_trades 1 }, none)
          else (record_trade a t, none)
    ]

-- `self.accum[&price]` for each price of a set; a missing key is a panic.
unfoldable pub buckets_for : List (ℤ × ClusterAccum) → List ℤ → Option (List ClusterBucket)
buckets_for m [] = some []
buckets_for m (p ∷ ps) = do acc ← lookup p m; rest ← buckets_for m ps; some (bucket_of p acc ∷ rest)

abbrev pub is_empty {ℓ} : {A : Type ℓ} → List A → Bool
is_empty [] = true
is_empty (x ∷ xs) = false

-- An outer `none` is a panic.
unfoldable pub tick : Aggregator → ℤ → Option (Aggregator × Option ClusterFrame)
tick a now_ns =
    if is_empty a.dirty
    then some (a, none)
    else if ltb_ℤ (saturating_sub now_ns a.last_diff_emit_ns) a.diff_interval_ns
    then some (a, none)
    else (elim a.current_window_start_ns [
      | none ↦ some (a, none)
      | some window_start_ns ↦ do
        upserts ← buckets_for a.accum a.dirty
        let seq = increment a.sequence
        some (
          record a { sequence = seq; dirty = []; last_diff_emit_ns = now_ns },
          some (
              diff (record {
                window_start_ns = window_start_ns;
                sequence = seq;
                upserts = upserts;
                removes = [];
              })),
        )
    ])

unfoldable pub current_window_delta : Aggregator → Option (Aggregator × Option ClusterFrame)
current_window_delta a =
    if is_empty a.partial_dirty then some (a, none) else (elim a.current_window_start_ns [
      | none ↦ some (a, none)
      | some window_start_ns ↦ do
        clusters ← buckets_for a.accum a.partial_dirty
        let seq = increment a.sequence
        some (
          record a { sequence = seq; partial_dirty = [] },
          some (
              snapshot (record {
                window_start_ns = window_start_ns;
                sequence = seq;
                clusters = clusters;
                open_price = a.open_price;
                close_price = a.close_price;
                high_price = a.high_price;
                low_price = a.low_price;
              })),
        )
    ])

unfoldable pub flush : Aggregator → Aggregator × Option ClusterFrame
unfolding build_closing_snapshot
flush a =
    if is_empty a.accum
    then (a, none)
    else (let (closed, frame) = build_closing_snapshot a in (cleared none closed, some frame))

-- The calls that the task makes while its channel is open, in the order in which it makes them.
pub data Call : Type 0 where
  trade : TradePrint → Call
  pulse : ℤ → Call
  delta : Call

-- A window of zero is a division by zero in `ingest`.
unfoldable pub step : Aggregator → Call → Option (Aggregator × Option ClusterFrame)
unfolding ingest tick current_window_delta
step a (trade t) = if nat_beq a.window_ns 0 then none else some (ingest a t)
step a (pulse now_ns) = tick a now_ns
step a delta = current_window_delta a

abbrev pub cons_frame : Option ClusterFrame → List ClusterFrame → List ClusterFrame
cons_frame none fs = fs
cons_frame (some f) fs = f ∷ fs

-- The state after some calls, and the frames that they gave, oldest first.
unfoldable pub run : Aggregator → List Call → Option (Aggregator × List ClusterFrame)
run a [] = some (a, [])
run a (c ∷ cs) = do (b, f) ← step a c; (z, fs) ← run b cs; some (z, cons_frame f fs)
