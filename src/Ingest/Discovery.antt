-- ===== src/Ingest/Discovery.antt =====
-- A discovery cycle of crates/cluster-ingest/src/binance_supervisor.rs over what an adapter fetched:
-- the parser of the exchange's answer, the filter, the ranking and the start of the tasks together.
use mathlib.Core.Path.{subst}
use trading_terminal_cluster.Common.{
  ℕ, zero, suc, List, [], ◌∷◌, map, Bool, Option, none, some, ◌≡◌, inl, inr, arith,
}
use trading_terminal_cluster.Common.Lists.{All, take}
use trading_terminal_cluster.Common.Tests.{Bool-cases, Option-cases}
use trading_terminal_cluster.Common.Map.{member, contains_key}
use trading_terminal_cluster.Common.Text.{Text}
use trading_terminal_cluster.Common.Json.{Json}
use trading_terminal_cluster.Core.{Exchange, MarketType, SymbolSpec, SymbolKey}
use trading_terminal_cluster.Core.Wire.{symbol_key_eq}
use trading_terminal_cluster.Adapters.Ticks.{Ticked, Positive}
use trading_terminal_cluster.Adapters.Ticks.Fetched.{Fetched, Fetched-Ticked}
use trading_terminal_cluster.Ingest.Config.{BinancePerpConfig, RankBy, alphabetical, volume_24h}
use trading_terminal_cluster.Ingest.Universe.{
  is_kept, filter_symbols, volume_of, insert_by_volume, sort_by_volume, is_ordered, rank_specs,
  top_n_of, wanted_specs,
}
use trading_terminal_cluster.Ingest.Supervisor.{Tasks, Supervisor, symbol_key, done, reconcile_once}
use trading_terminal_cluster.Ingest.Supervisor.Spawn.{Milliseconds, Timeframe, Capacity, Startable}
use trading_terminal_cluster.Ingest.Supervisor.Cycles.{reconcile-total}

-- The settings let a symbol's tasks start: the times of an aggregator fit, a channel can be made, and
-- each timeframe has a writer's channel.
unfoldable pub Ready : Tasks → Type 0
Ready tasks =
    Milliseconds tasks.diff_interval_ms
    × Capacity tasks.trade_channel_bound
    × All (Timeframe tasks) tasks.timeframes_secs

module _ (P : SymbolSpec → Type 0) where
  All-filter_symbols :
      (specs : List SymbolSpec) (cfg : BinancePerpConfig) (exchange : Exchange)
      (market_type : MarketType)
      → All P specs
      → All P (filter_symbols specs cfg exchange market_type)
  unfolding filter_symbols
  All-filter_symbols [] cfg exchange market_type h = _
  All-filter_symbols (s ∷ specs) cfg exchange market_type (p, h) =
      elim (Bool-cases (is_kept cfg exchange market_type s)) [
        | inl keep ↦ rw keep (p, All-filter_symbols specs cfg exchange market_type h)
        | inr drop ↦ rw drop (All-filter_symbols specs cfg exchange market_type h)
      ]

  All-take : (n : ℕ) (specs : List SymbolSpec) → All P specs → All P (take n specs)
  All-take zero specs h = _
  All-take (suc n) [] h = _
  All-take (suc n) (s ∷ specs) (p, h) = (p, All-take n specs h)

  All-top :
      (top_n : Option ℕ) (specs : List SymbolSpec) → All P specs → All P (top_n_of top_n specs)
  unfolding top_n_of
  All-top none specs h = h
  All-top (some n) specs h = All-take n specs h

  module _ {V : Type 0} (less : V → V → Bool) (is_nan : V → Bool) (zero_volume : V) where
    All-insert_by_volume :
        (volumes : List (Text × V)) (s : SymbolSpec) (ts : List SymbolSpec)
        → P s
        → All P ts
        → All P (insert_by_volume less is_nan zero_volume volumes s ts)
    unfolding insert_by_volume
    All-insert_by_volume volumes s [] p h = (p, _)
    All-insert_by_volume volumes s (t ∷ ts) p (q, h) =
        elim (Bool-cases (
          less (volume_of less is_nan zero_volume volumes s)
            (volume_of less is_nan zero_volume volumes t))) [
              | inl behind ↦ rw behind (q, All-insert_by_volume volumes s ts p h)
              | inr before ↦ rw before (p, (q, h))
            ]

    All-sort_by_volume :
        (volumes : List (Text × V)) (ss : List SymbolSpec)
        → All P ss
        → All P (sort_by_volume less is_nan zero_volume volumes ss)
    unfolding sort_by_volume
    All-sort_by_volume volumes [] h = _
    All-sort_by_volume volumes (s ∷ ss) (p, h) =
        All-insert_by_volume volumes s (sort_by_volume less is_nan zero_volume volumes ss) p
          (All-sort_by_volume volumes ss h)

    All-rank_specs :
        (by : RankBy) (ranker : Option (Option (List (Text × V)))) (ss ranked : List SymbolSpec)
        → rank_specs less is_nan zero_volume by ranker ss ≡ some ranked
        → All P ss
        → All P ranked
    unfolding rank_specs
    All-rank_specs alphabetical ranker ss ranked e h = subst (All P) (ground (arith, e)) h
    All-rank_specs volume_24h none ss ranked e h = subst (All P) (ground (arith, e)) h
    All-rank_specs volume_24h (some none) ss ranked e h = subst (All P) (ground (arith, e)) h
    All-rank_specs volume_24h (some (some volumes)) ss ranked e h =
        elim (Bool-cases (is_ordered less is_nan zero_volume volumes ss)) [
          | inl ordered ↦
              let is : sort_by_volume less is_nan zero_volume volumes ss ≡ ranked =
                ground (arith, ordered, e) in
              subst (All P) is (All-sort_by_volume volumes ss h)
          | inr unordered ↦ absurd (ground (arith, unordered, e))
        ]

    All-wanted_specs :
        (cfg : BinancePerpConfig) (exchange : Exchange) (market_type : MarketType)
        (ranker : Option (Option (List (Text × V)))) (specs wanted : List SymbolSpec)
        → wanted_specs less is_nan zero_volume cfg exchange market_type ranker specs ≡ some wanted
        → All P specs
        → All P wanted
    unfolding wanted_specs
    All-wanted_specs cfg exchange market_type ranker specs wanted e h =
        let kept = filter_symbols specs cfg exchange market_type in
        elim (Option-cases (rank_specs less is_nan zero_volume cfg.rank_by ranker kept)) [
          | inl unordered ↦ absurd (ground (arith, unordered, e))
          | inr (ranked, is_ranked) ↦
              let top : top_n_of cfg.top_n ranked ≡ wanted = ground (arith, is_ranked, e) in
              subst (All P) top (
                All-top cfg.top_n ranked (
                  All-rank_specs cfg.rank_by ranker kept ranked is_ranked
                    (All-filter_symbols specs cfg exchange market_type h)))
        ]

All-Startable :
    (tasks : Tasks) (specs : List SymbolSpec)
    → Ready tasks
    → All Ticked specs
    → All (Startable tasks) specs
unfolding Startable Ready Ticked Positive
All-Startable tasks [] ready h = _
All-Startable tasks (s ∷ specs) ready (t, h) =
    ((t.0, ready.0, ready.1, ready.2), All-Startable tasks specs ready h)

-- Where the settings let a symbol's tasks start (the times of its aggregators and the capacity of its
-- channels are in range, and each timeframe has a writer), and the ranking compares no NaN, a discovery
-- cycle over the instruments that the adapter of Bybit, Bitget, OKX, Hyperliquid, BingX, KuCoin or MEXC
-- read of its exchange's answer is done: no task's start panics, whatever the answer and the filter;
-- after it exactly the wanted symbols have tasks.
pub reconcile_once-Fetched :
    {V : Type 0} (less : V → V → Bool) (is_nan : V → Bool) (zero_volume : V) (tasks : Tasks)
    (cfg : BinancePerpConfig) (exchange : Exchange) (market_type : MarketType)
    (ranker : Option (Option (List (Text × V)))) (json : Json) (to_uppercase : Text → Text)
    (specs wanted : List SymbolSpec) (s : Supervisor)
    → Ready tasks
    → wanted_specs less is_nan zero_volume cfg exchange market_type ranker specs ≡ some wanted
    → Fetched json to_uppercase specs
    → (next : Supervisor) × (reconcile_once less is_nan zero_volume tasks cfg exchange market_type
          ranker
          (some specs)
          s
        ≡ done next)
      × ((q : SymbolKey) → contains_key q next.handles ≡ member q (map symbol_key wanted))
unfolding reconcile_once
reconcile_once-Fetched less is_nan zero_volume tasks cfg exchange market_type ranker json
      to_uppercase specs wanted s ready ranked fetched =
    let (next, e, keys) = reconcile-total tasks wanted s (
      All-wanted_specs (Startable tasks) less is_nan zero_volume cfg exchange market_type ranker
        specs wanted ranked
        (All-Startable tasks specs ready (Fetched-Ticked json to_uppercase specs fetched))) in
    (next, ground (arith, ranked, e), keys)
