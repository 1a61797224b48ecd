-- ===== src/Ingest/Supervisor/Spawn.antt =====
-- When the tasks of a symbol start: `spawn_symbol` of
-- crates/cluster-ingest/src/binance_supervisor.rs does not panic.
use trading_terminal_cluster.Common.{
  ℕ, suc, ◌-◌, ◌*◌, ◌^◌, ◌≤◌, List, [], ◌∷◌, true, some, ◌≡◌, refl, inl, inr, arith,
}
use trading_terminal_cluster.Common.Int.{ℤ, pos}
use trading_terminal_cluster.Common.Lists.{All}
use trading_terminal_cluster.Common.Machine.{max_i64, wrap_i64}
use trading_terminal_cluster.Common.Tests.{Option-cases}
use trading_terminal_cluster.Common.Eq.{nat_eq}
use trading_terminal_cluster.Common.Map.{member}
use trading_terminal_cluster.Core.{SymbolSpec, SymbolKey, StreamKey}
use trading_terminal_cluster.Engine.Aggregator
use trading_terminal_cluster.Engine.Aggregator.{Aggregator, positive, ms_to_ns}
use trading_terminal_cluster.Ingest.Supervisor.{
  SymbolHandle, Tasks, symbol_key, channel_for, makes_channel, spawn_timeframes, spawn_symbol,
}

-- A number of milliseconds that an aggregator takes, and whose nanoseconds do not wrap.
unfoldable pub Milliseconds : ℤ → Type 0
Milliseconds ms = (n : ℕ) × (ms ≡ pos n) × (1 ≤ n) × (n * 1_000_000 ≤ max_i64)

-- A timeframe that fits and has a writer's channel.
unfoldable pub Timeframe : Tasks → ℕ → Type 0
Timeframe tasks tf = Milliseconds (pos (tf * 1000)) × (member tf tasks.ch_tx_by_tf ≡ true)

-- A capacity with which tokio makes a channel.
unfoldable pub Capacity : ℕ → Type 0
Capacity bound = (1 ≤ bound) × (bound ≤ 2 ^ 61 - 1)

unfoldable pub Startable : Tasks → SymbolSpec → Type 0
Startable tasks s =
    ((n : ℕ) × (s.tick_size ≡ pos (suc n)))
    × Milliseconds tasks.diff_interval_ms
    × Capacity tasks.trade_channel_bound
    × All (Timeframe tasks) tasks.timeframes_secs

ms_to_ns-total : (ms : ℤ) → Milliseconds ms → (z : ℤ) × (ms_to_ns ms ≡ some z)
unfolding Milliseconds ms_to_ns positive
ms_to_ns-total ms (n, ms_is, low, high) = (wrap_i64 (pos (n * 1_000_000)), rw ms_is (ground arith))

new-total :
    (key : SymbolKey) (n : ℕ) (window diff : ℤ)
    → Milliseconds window
    → Milliseconds diff
    → (a : Aggregator) × (Aggregator.new key (pos (suc n)) window diff ≡ some a)
unfolding Aggregator.new positive
new-total key n window diff w d =
    let (w_ns, w_is) = ms_to_ns-total window w in
    let (d_ns, d_is) = ms_to_ns-total diff d in
    elim (Option-cases (Aggregator.new key (pos (suc n)) window diff)) [
      | inl failed ↦ absurd (ground (arith, w_is, d_is, failed))
      | inr made ↦ made
    ]

spawn_timeframes-total :
    (tasks : Tasks) (s : SymbolSpec) (n : ℕ) (tfs : List ℕ)
    → s.tick_size ≡ pos (suc n)
    → Milliseconds tasks.diff_interval_ms
    → makes_channel tasks.trade_channel_bound ≡ true
    → All (Timeframe tasks) tfs
    → (both : List Aggregator × List StreamKey) × (spawn_timeframes tasks s tfs ≡ some both)
unfolding spawn_timeframes channel_for Timeframe
spawn_timeframes-total tasks s n [] tick diff room h = (([], []), refl)
spawn_timeframes-total tasks s n (tf ∷ tfs) tick diff room ((window, channel), h) =
    let (agg, made) =
      new-total (symbol_key s) n (pos (tf * 1000)) tasks.diff_interval_ms window diff in
    let (both, rest) = spawn_timeframes-total tasks s n tfs tick diff room h in
    elim (Option-cases (spawn_timeframes tasks s (tf ∷ tfs))) [
      | inl failed ↦ absurd (ground (arith, tick, made, room, channel, rest, failed))
      | inr started ↦ started
    ]

pub spawn_symbol-total :
    (tasks : Tasks) (tx : ℕ) (s : SymbolSpec)
    → Startable tasks s
    → (h : SymbolHandle) × (spawn_symbol tasks tx s ≡ some h)
unfolding spawn_symbol Startable Capacity
spawn_symbol-total tasks tx s ((n, tick), diff, fits, h) =
    let room : makes_channel tasks.trade_channel_bound ≡ true = ground (arith, fits) in
    let (both, made) = spawn_timeframes-total tasks s n tasks.timeframes_secs tick diff room h in
    elim (Option-cases (spawn_symbol tasks tx s)) [
      | inl failed ↦ absurd (ground (arith, made, room, failed))
      | inr started ↦ started
    ]
