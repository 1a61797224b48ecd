-- ===== src/Ingest/Universe.antt =====
-- Which symbols a supervisor wants: `filter_symbols` and `rank_specs` of
-- crates/cluster-ingest/src/binance_supervisor.rs. A volume is an `f64` there; its type, its order and
-- its zero are parameters, and so is which of its values are not numbers.
pub mod Filter
pub mod Ranking
use trading_terminal_cluster.Common.{
  ℕ, zero, suc, ◌*◌, List, [], ◌∷◌, map, Bool, true, false, not, ◌&&◌, ◌||◌, Option, none, some,
}
use trading_terminal_cluster.Common.Int.{ℤ, pos}
use trading_terminal_cluster.Common.Lists.{take}
use trading_terminal_cluster.Common.Tests.{if◌then◌else◌}
use trading_terminal_cluster.Common.Eq.{◌==◌, nat_eq, list_eq}
use trading_terminal_cluster.Common.Map.{lookup, insert, contains_key, remove, member}
use trading_terminal_cluster.Common.Text.{Text, codes}
use trading_terminal_cluster.Core.{
  Exchange, MarketType, Quote, usdt, usdc, SymbolSpec, SymbolKey, StreamKey,
}
use trading_terminal_cluster.Core.Wire.{exchange_beq, market_beq, quote_eq, symbol_key_eq}
use trading_terminal_cluster.Engine.Aggregator
use trading_terminal_cluster.Engine.Aggregator.{Aggregator, ◌>>=◌}
use trading_terminal_cluster.Ingest.Config.{
  BinancePerpConfig, RankBy, alphabetical, volume_24h, is_empty,
}

unfoldable pub quotes_of : List Text → List Quote
quotes_of [] = []
quotes_of (q ∷ qs) =
    let rest = quotes_of qs in
    if q == codes "USDT" then usdt ∷ rest else if q == codes "USDC" then usdc ∷ rest else rest

unfoldable pub is_kept : BinancePerpConfig → Exchange → MarketType → SymbolSpec → Bool
unfolding quotes_of is_empty
is_kept cfg exchange market_type s =
    if not (exchange_beq s.exchange exchange) || not (market_beq s.market_type market_type)
    then false
    else if not (member s.quote (quotes_of cfg.include_quotes))
    then false
    else if member s.symbol cfg.deny
    then false
    else if is_empty cfg.allow
    then true
    else member s.symbol cfg.allow

unfoldable pub filter_symbols :
    List SymbolSpec → BinancePerpConfig → Exchange → MarketType → List SymbolSpec
unfolding is_kept
filter_symbols [] cfg exchange market_type = []
filter_symbols (s ∷ specs) cfg exchange market_type =
    let rest = filter_symbols specs cfg exchange market_type in
    if is_kept cfg exchange market_type s then s ∷ rest else rest

-- `into_iter().take(n)`, where there is a limit.
unfoldable pub top_n_of : Option ℕ → List SymbolSpec → List SymbolSpec
top_n_of none specs = specs
top_n_of (some n) specs = take n specs

-- `sort_by`, which is stable: an element goes behind those before it that are not smaller.
module _ {V : Type 0} (less : V → V → Bool) (is_nan : V → Bool) (zero_volume : V) where
  unfoldable pub volume_of : List (Text × V) → SymbolSpec → V
  volume_of volumes s = elim (lookup s.symbol volumes) [ none ↦ zero_volume | some v ↦ v ]

  unfoldable pub insert_by_volume : List (Text × V) → SymbolSpec → List SymbolSpec → List SymbolSpec
  unfolding volume_of
  insert_by_volume volumes s [] = s ∷ []
  insert_by_volume volumes s (t ∷ ts) =
      let rest = insert_by_volume volumes s ts in
      if less (volume_of volumes s) (volume_of volumes t) then t ∷ rest else s ∷ t ∷ ts

  unfoldable pub sort_by_volume : List (Text × V) → List SymbolSpec → List SymbolSpec
  unfolding insert_by_volume
  sort_by_volume volumes [] = []
  sort_by_volume volumes (s ∷ ss) = insert_by_volume volumes s (sort_by_volume volumes ss)

  unfoldable pub are_numbers : List (Text × V) → List SymbolSpec → Bool
  unfolding volume_of
  are_numbers volumes [] = true
  are_numbers volumes (s ∷ ss) = not (is_nan (volume_of volumes s)) && are_numbers volumes ss

  -- A NaN is not compared if there is no other symbol.
  unfoldable pub is_ordered : List (Text × V) → List SymbolSpec → Bool
  unfolding are_numbers
  is_ordered volumes [] = true
  is_ordered volumes (s ∷ []) = true
  is_ordered volumes (s ∷ t ∷ ss) = are_numbers volumes (s ∷ t ∷ ss)

  -- The ranker is missing, or its fetch fails, or it answers. Where a NaN is compared, the comparison
  -- is no total order, and `sort_by` may panic or leave the symbols in any order: nothing stands for
  -- this.
  unfoldable pub rank_specs :
      RankBy → Option (Option (List (Text × V))) → List SymbolSpec → Option (List SymbolSpec)
  unfolding sort_by_volume is_ordered
  rank_specs alphabetical ranker specs = some specs
  rank_specs volume_24h none specs = some specs
  rank_specs volume_24h (some none) specs = some specs
  rank_specs volume_24h (some (some volumes)) specs =
      if is_ordered volumes specs then some (sort_by_volume volumes specs) else none

  unfoldable pub wanted_specs :
      BinancePerpConfig
      → Exchange
      → MarketType
      → Option (Option (List (Text × V)))
      → List SymbolSpec
      → Option (List SymbolSpec)
  unfolding filter_symbols rank_specs top_n_of
  wanted_specs cfg exchange market_type ranker specs =
      elim (rank_specs cfg.rank_by ranker (filter_symbols specs cfg exchange market_type)) [
        | none ↦ none
        | some ranked ↦ some (top_n_of cfg.top_n ranked)
      ]
