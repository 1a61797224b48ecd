-- ===== src/Ingest/Supervisor.antt =====
-- crates/cluster-ingest/src/binance_supervisor.rs: one discovery cycle of a supervisor. The answers of
-- the exchange are arguments; a sender is the number it was made with.
pub mod Spawn
pub mod Reconcile
pub mod Cycles
pub mod Stability
pub mod Routes
pub mod Backoff
use trading_terminal_cluster.Common.{
  ℕ, zero, suc, ◌-◌, ◌*◌, ◌^◌, List, [], ◌∷◌, map, Bool, true, false, not, ◌&&◌, ◌||◌, Option, none,
  some,
}
use trading_terminal_cluster.Common.Int.{ℤ, pos}
use trading_terminal_cluster.Common.Lists.{take}
use trading_terminal_cluster.Common.Tests.{if◌then◌else◌, leb}
use trading_terminal_cluster.Common.Eq.{◌==◌, nat_eq, list_eq}
use trading_terminal_cluster.Common.Map.{lookup, insert, contains_key, remove, member}
use trading_terminal_cluster.Common.Text.{Text, codes}
use trading_terminal_cluster.Core.{
  Exchange, MarketType, Quote, usdt, usdc, SymbolSpec, SymbolKey, StreamKey,
}
use trading_terminal_cluster.Core.Wire.{exchange_beq, market_beq, quote_eq, symbol_key_eq}
use trading_terminal_cluster.Ingest.Universe.{wanted_specs}
use trading_terminal_cluster.Engine.Aggregator
use trading_terminal_cluster.Engine.Aggregator.{Aggregator, ◌>>=◌}
use trading_terminal_cluster.Ingest.Config.{
  BinancePerpConfig, RankBy, alphabetical, volume_24h, is_empty,
}

-- The tasks of a symbol: one aggregator and one subscription of the sink for each timeframe.
pub record SymbolHandle : Type 0 where
  pub spec : SymbolSpec
  pub trade_tx : ℕ
  pub aggregators : List Aggregator
  pub ch_fanouts : List StreamKey

pub record SymbolRoute : Type 0 where
  pub spec : SymbolSpec
  pub sink : ℕ

-- The settings that a new symbol's tasks take, and the timeframes that have a writer's channel.
pub record Tasks : Type 0 where
  pub timeframes_secs : List ℕ
  pub diff_interval_ms : ℤ
  pub trade_channel_bound : ℕ
  pub ch_tx_by_tf : List ℕ

-- The last routes sent to the session, how often they were sent, and the senders made so far.
pub record Supervisor : Type 0 where
  pub handles : List (SymbolKey × SymbolHandle)
  pub routes : List SymbolRoute
  pub published : ℕ
  pub senders : ℕ

unfoldable pub new_supervisor : Supervisor
new_supervisor = record { handles = []; routes = []; published = 0; senders = 0 }

unfoldable pub symbol_key : SymbolSpec → SymbolKey
symbol_key s = record { exchange = s.exchange; market_type = s.market_type; symbol = s.symbol }

-- The writer's channel of a timeframe.
unfoldable pub channel_for : ℕ → List ℕ → Option ℕ
channel_for tf ch_tx_by_tf = if member tf ch_tx_by_tf then some tf else none

-- tokio's `mpsc::channel` is documented to panic on a capacity of 0, or above
-- `Semaphore::MAX_PERMITS`.
abbrev pub makes_channel : ℕ → Bool
makes_channel bound = leb 1 bound && leb bound (2 ^ 61 - 1)

-- The aggregators and subscriptions for each timeframe; nothing stands for a panic: a channel for the
-- trades cannot be made, an aggregator's assertion fails, or a timeframe has no writer's channel.
unfoldable pub spawn_timeframes :
    Tasks → SymbolSpec → List ℕ → Option (List Aggregator × List StreamKey)
unfolding symbol_key channel_for
spawn_timeframes tasks s [] = some ([], [])
spawn_timeframes tasks s (tf ∷ tfs) =
    let rest = spawn_timeframes tasks s tfs in
    if not (makes_channel tasks.trade_channel_bound) then none else do
      agg ← Aggregator.new (symbol_key s) s.tick_size (pos (tf * 1000)) tasks.diff_interval_ms
      _ ← channel_for tf tasks.ch_tx_by_tf
      both ← rest
      some (agg ∷ both.0, record { symbol = symbol_key s; interval_seconds = tf } ∷ both.1)

-- The session's channel is made last.
unfoldable pub spawn_symbol : Tasks → ℕ → SymbolSpec → Option SymbolHandle
unfolding spawn_timeframes
spawn_symbol tasks trade_tx s = do
  both ← spawn_timeframes tasks s tasks.timeframes_secs
  if makes_channel tasks.trade_channel_bound
      then some
          (record { spec = s; trade_tx = trade_tx; aggregators = both.0; ch_fanouts = both.1 })
      else none

unfoldable pub keys_to_remove : List SymbolKey → List (SymbolKey × SymbolHandle) → List SymbolKey
keys_to_remove wanted [] = []
keys_to_remove wanted ((k, h) ∷ m) =
    let rest = keys_to_remove wanted m in if member k wanted then rest else k ∷ rest

unfoldable pub remove_all :
    List SymbolKey → List (SymbolKey × SymbolHandle) → List (SymbolKey × SymbolHandle)
remove_all [] m = m
remove_all (k ∷ ks) m = remove_all ks (remove k m)

-- The handles, the number of senders and whether a symbol was added.
pub record Added : Type 0 where
  pub handles : List (SymbolKey × SymbolHandle)
  pub senders : ℕ
  pub added : ℕ

unfoldable pub add_missing : Tasks → List SymbolSpec → Added → Option Added
unfolding symbol_key spawn_symbol
add_missing tasks [] a = some a
add_missing tasks (s ∷ wanted) a =
    let skip = add_missing tasks wanted a in
    if contains_key (symbol_key s) a.handles then skip else do
      handle ← spawn_symbol tasks a.senders s
      add_missing tasks wanted (record {
        handles = insert (symbol_key s) handle a.handles;
        senders = suc a.senders;
        added = suc a.added;
      })

unfoldable pub routes_of : List (SymbolKey × SymbolHandle) → List SymbolRoute
routes_of [] = []
routes_of ((_, h) ∷ m) = record { spec = h.spec; sink = h.trade_tx } ∷ routes_of m

-- The routes are sent only if a symbol went or came.
unfoldable pub publish_routes : Bool → Added → Supervisor → Supervisor
unfolding routes_of
publish_routes changed a s = record {
  handles = a.handles;
  routes = if changed then routes_of a.handles else s.routes;
  published = if changed then suc s.published else s.published;
  senders = a.senders;
}

unfoldable pub is_zero : ℕ → Bool
is_zero zero = true
is_zero (suc _) = false

-- With what the fetch, the filter and the ranking have left: the symbols wanted.
unfoldable pub reconcile : Tasks → List SymbolSpec → Supervisor → Option Supervisor
unfolding keys_to_remove remove_all add_missing publish_routes is_zero symbol_key is_empty
reconcile tasks wanted s = do
  let to_remove = keys_to_remove (map symbol_key wanted) s.handles
  a ←
      add_missing tasks wanted
        (record { handles = remove_all to_remove s.handles; senders = s.senders; added = 0 })
  some (publish_routes (not (is_empty to_remove) || not (is_zero a.added)) a s)

-- The fetch failed, a NaN was ranked, a task's start panicked, or the cycle is done.
pub data Outcome : Type 0 where
  fetch_failed unordered panicked : Outcome
  done : Supervisor → Outcome

module _ {V : Type 0} (less : V → V → Bool) (is_nan : V → Bool) (zero_volume : V) where
  unfoldable pub reconcile_once :
      Tasks
      → BinancePerpConfig
      → Exchange
      → MarketType
      → Option (Option (List (Text × V)))
      → Option (List SymbolSpec)
      → Supervisor
      → Outcome
  unfolding wanted_specs reconcile
  reconcile_once tasks cfg exchange market_type ranker none s = fetch_failed
  reconcile_once tasks cfg exchange market_type ranker (some specs) s =
      elim (wanted_specs less is_nan zero_volume cfg exchange market_type ranker specs) [
        | none ↦ unordered
        | some wanted ↦ elim (reconcile tasks wanted s) [ none ↦ panicked | some next ↦ done next ]
      ]
