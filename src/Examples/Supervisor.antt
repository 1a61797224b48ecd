-- ===== src/Examples/Supervisor.antt =====
-- Concrete cycles and turns of crates/cluster-ingest/src/binance_supervisor.rs.
use mathlib.Core.List.{Memᴰ, Permᴰ}
use trading_terminal_cluster.Common.{
  ℕ, zero, suc, List, [], ◌∷◌, map, Bool, true, false, Option, none, some, ◌≡◌, refl, ◌↔◌, arith,
}
use trading_terminal_cluster.Common.Int.{pos}
use trading_terminal_cluster.Common.Lists.{All}
use trading_terminal_cluster.Common.Tests.{ltb}
use trading_terminal_cluster.Common.Map.{lookup, contains_key, member, insert, remove}
use trading_terminal_cluster.Common.Text.{Text, codes}
use trading_terminal_cluster.Core.{
  SymbolSpec, SymbolKey, binance_f, perp, usdt, usdc, Quote, wire_id,
}
use trading_terminal_cluster.Core.Wire.{symbol_key_eq}
use trading_terminal_cluster.Ingest.{Sent, sent, full}
use trading_terminal_cluster.Ingest.Fanout.{Slot, new_slot, fanout, Served, fanout-Served}
use trading_terminal_cluster.Common.Pairwise.{Pairwise}
use trading_terminal_cluster.Ingest.Config.{default_binance_perp_config, is_empty, volume_24h}
use trading_terminal_cluster.Ingest.Universe.{
  filter_symbols, volume_of, insert_by_volume, sort_by_volume, are_numbers, is_ordered, rank_specs,
}
use trading_terminal_cluster.Ingest.Universe.Filter.{Kept, filter_symbols_iff}
use trading_terminal_cluster.Ingest.Universe.Ranking.{rank_specs-take}
use trading_terminal_cluster.Ingest.Supervisor.{
  Tasks, Supervisor, SymbolHandle, SymbolRoute, new_supervisor, symbol_key, reconcile, routes_of,
  keys_to_remove, remove_all, add_missing, publish_routes, is_zero, spawn_symbol, spawn_timeframes,
}
use trading_terminal_cluster.Ingest.Supervisor.Spawn.{Startable, Milliseconds, Timeframe, Capacity}
use trading_terminal_cluster.Ingest.Supervisor.Cycles.{reconcile-total}
use trading_terminal_cluster.Ingest.Supervisor.Stability.{reconcile-reconcile}
use trading_terminal_cluster.Ingest.Supervisor.Routes.{start, cycle, Keyed, Reached-Current}

abbrev listed : Text → Quote → SymbolSpec
listed symbol quote = record {
  exchange = binance_f;
  market_type = perp;
  quote = quote;
  symbol = symbol;
  price_scale = 2;
  qty_scale = 3;
  tick_size = pos 10;
  step_size = pos 1;
}

abbrev btc : SymbolSpec
btc = listed (codes "BTCUSDT") usdt

abbrev eth : SymbolSpec
eth = listed (codes "ETHUSDC") usdc

abbrev pub tasks : Tasks
tasks = record {
  timeframes_secs = 60 ∷ 300 ∷ [];
  diff_interval_ms = pos 200;
  trade_channel_bound = 32_768;
  ch_tx_by_tf = 300 ∷ 60 ∷ [];
}

both_start : All (Startable tasks) (btc ∷ eth ∷ [])
unfolding Startable Milliseconds Timeframe Capacity member
both_start =
    let times : Milliseconds (pos 60_000) × Milliseconds (pos 300_000) × Milliseconds (pos 200) = (
      (60_000, refl, omega arith, omega arith),
      (300_000, refl, omega arith, omega arith),
      (200, refl, omega arith, omega arith),
    ) in
    let ready : All (Timeframe tasks) (60 ∷ 300 ∷ []) = ((times.0, refl), ((times.1, refl), tt)) in
    (
      ((9, refl), times.2, (omega arith, omega arith), ready),
      (((9, refl), times.2, (omega arith, omega arith), ready), tt),
    )

reconcile-total_example :
    (next : Supervisor) × (reconcile tasks (btc ∷ eth ∷ []) new_supervisor ≡ some next)
    × ((q : SymbolKey) → contains_key q next.handles ≡ member q (map symbol_key (btc ∷ eth ∷ [])))
reconcile-total_example = reconcile-total tasks (btc ∷ eth ∷ []) new_supervisor both_start

abbrev bare : Tasks
bare = record {
  timeframes_secs = [];
  diff_interval_ms = pos 200;
  trade_channel_bound = 32_768;
  ch_tx_by_tf = [];
}

abbrev handle : SymbolSpec → ℕ → SymbolHandle
handle s tx = record { spec = s; trade_tx = tx; aggregators = []; ch_fanouts = [] }

abbrev route : SymbolSpec → ℕ → SymbolRoute
route s tx = record { spec = s; sink = tx }

-- After the first cycle, which finds two symbols, and the second, which finds one of them and a new
-- one.
abbrev first_state : Supervisor
first_state = record {
  handles = (symbol_key btc, handle btc 0) ∷ (symbol_key eth, handle eth 1) ∷ [];
  routes = route btc 0 ∷ route eth 1 ∷ [];
  published = 1;
  senders = 2;
}

abbrev sol : SymbolSpec
sol = listed (codes "SOLUSDT") usdt

abbrev second_state : Supervisor
second_state = record {
  handles = (symbol_key eth, handle eth 1) ∷ (symbol_key sol, handle sol 2) ∷ [];
  routes = route eth 1 ∷ route sol 2 ∷ [];
  published = 2;
  senders = 3;
}

first_cycle : reconcile bare (btc ∷ eth ∷ []) new_supervisor ≡ some first_state
unfolding reconcile keys_to_remove remove_all add_missing publish_routes is_zero spawn_symbol
    spawn_timeframes routes_of new_supervisor symbol_key contains_key insert is_empty wire_id
first_cycle = refl

second_cycle : reconcile bare (sol ∷ eth ∷ []) first_state ≡ some second_state
unfolding reconcile keys_to_remove remove_all add_missing publish_routes is_zero spawn_symbol
    spawn_timeframes routes_of symbol_key contains_key insert is_empty wire_id member remove
second_cycle = refl

reconcile-reconcile_example : reconcile bare (sol ∷ eth ∷ []) second_state ≡ some second_state
reconcile-reconcile_example =
    reconcile-reconcile bare (sol ∷ eth ∷ []) first_state second_state second_cycle

Reached-Current_example :
    (second_state.routes ≡ routes_of second_state.handles) × Keyed second_state.handles
Reached-Current_example =
    Reached-Current bare second_state
      (cycle (sol ∷ eth ∷ []) (cycle (btc ∷ eth ∷ []) start first_cycle) second_cycle)

filter_symbols_iff_example :
    Memᴰ eth (filter_symbols (btc ∷ eth ∷ []) default_binance_perp_config binance_f perp)
    ↔ (Memᴰ eth (btc ∷ eth ∷ []) × Kept default_binance_perp_config binance_f perp eth)
filter_symbols_iff_example =
    filter_symbols_iff (btc ∷ eth ∷ []) default_binance_perp_config binance_f perp eth

-- A volume, or a NaN.
abbrev Volume : Type 0
Volume = Option ℕ

unfoldable below : Volume → Volume → Bool
below (some x) (some y) = ltb x y
below none v = false
below (some x) none = false

unfoldable is_nan : Volume → Bool
is_nan none = true
is_nan (some x) = false

abbrev volumes : List (Text × Volume)
volumes = (codes "BTCUSDT", some 5) ∷ (codes "SOLUSDT", some 9) ∷ (codes "XRPUSDT", none) ∷ []

below_asymmetric : (x y : Volume) → below x y ≡ true → below y x ≡ false
unfolding below
below_asymmetric none y h = absurd (ground (arith, h))
below_asymmetric (some x) none h = refl
below_asymmetric (some x) (some y) h = ground (arith, h)

below_transitive :
    (x y z : Volume)
    → is_nan x ≡ false
    → is_nan y ≡ false
    → is_nan z ≡ false
    → below x y ≡ false
    → below y z ≡ false
    → below x z ≡ false
unfolding below is_nan
below_transitive none y z p q r h k = absurd (ground (arith, p))
below_transitive (some x) none z p q r h k = absurd (ground (arith, q))
below_transitive (some x) (some y) none p q r h k = absurd (ground (arith, r))
below_transitive (some x) (some y) (some z) p q r h k = ground (arith, h, k)

abbrev volume : SymbolSpec → Volume
volume = volume_of below is_nan (some 0) volumes

by_volume :
    rank_specs below is_nan (some 0) volume_24h (some (some volumes)) (btc ∷ eth ∷ sol ∷ [])
    ≡ some (sol ∷ btc ∷ eth ∷ [])
unfolding rank_specs is_ordered are_numbers sort_by_volume insert_by_volume volume_of lookup below
    is_nan
by_volume = refl

nan_unordered :
    rank_specs below is_nan
      (some 0)
      volume_24h
      (some (some volumes))
      (btc ∷ listed (codes "XRPUSDT") usdt ∷ [])
    ≡ none
unfolding rank_specs is_ordered are_numbers volume_of lookup is_nan
nan_unordered = refl

rank_specs-take_example :
    Permᴰ (sol ∷ btc ∷ eth ∷ []) (btc ∷ eth ∷ sol ∷ [])
    × All (λ s. All (λ t. below (volume s) (volume t) ≡ false) (eth ∷ [])) (sol ∷ btc ∷ [])
rank_specs-take_example =
    rank_specs-take below is_nan (some 0) volumes below_asymmetric below_transitive 2
      (btc ∷ eth ∷ sol ∷ []) (sol ∷ btc ∷ eth ∷ []) by_volume

-- A channel by the room it has left.
unfoldable send_if_room : ℕ → ℕ → ℕ × Sent
send_if_room zero trade = (zero, full)
send_if_room (suc room) trade = (room, sent)

abbrev three_trades : List (ℕ × (ℕ → ℕ))
three_trades = (7, λ i. 6_000) ∷ (8, λ i. 7_000) ∷ (9, λ i. 12_000) ∷ []

abbrev drops_of : Slot ℕ → ℕ × List ℕ
drops_of s = (s.drops_full, s.warned)

slow_and_fast_drops :
    map drops_of (fanout send_if_room three_trades (map new_slot (1 ∷ 10 ∷ [])))
    ≡ (2, 12_000 ∷ 7_000 ∷ []) ∷ (0, []) ∷ []
unfolding fanout send_if_room new_slot
slow_and_fast_drops = refl

fanout-Served_example :
    Pairwise
      (Served send_if_room three_trades)
      (1 ∷ 10 ∷ [])
      (fanout send_if_room three_trades (map new_slot (1 ∷ 10 ∷ [])))
fanout-Served_example = fanout-Served send_if_room three_trades (1 ∷ 10 ∷ [])
