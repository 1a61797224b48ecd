-- ===== src/Ingest/Universe/Filter.antt =====
-- Which symbols `filter_symbols` of crates/cluster-ingest/src/binance_supervisor.rs keeps.
use mathlib.Core.List.{Memᴰ}
use mathlib.Core.List.Memᴰ
use trading_terminal_cluster.Common.{
  List, [], ◌∷◌, true, false, ◌≡◌, refl, sym, ◌↔◌, ◌⊎◌, inl, inr, arith,
}
use trading_terminal_cluster.Common.Tests.{Bool-cases}
use trading_terminal_cluster.Common.Eq.{nat_eq, list_eq, list_beq_iff}
use trading_terminal_cluster.Common.Map.{member}
use trading_terminal_cluster.Common.Text.{Text, codes}
use trading_terminal_cluster.Core.{Exchange, MarketType, Quote, usdt, usdc, SymbolSpec}
use trading_terminal_cluster.Core.Wire.{exchange_beq_iff, market_beq_iff, quote_eq}
use trading_terminal_cluster.Ingest.Config.{BinancePerpConfig, is_empty}
use trading_terminal_cluster.Ingest.Universe.{quotes_of, is_kept, filter_symbols}

unfoldable pub quote_text : Quote → Text
quote_text usdt = codes "USDT"
quote_text usdc = codes "USDC"

member-quotes_of :
    (q : Quote) (texts : List Text) → member q (quotes_of texts) ≡ member (quote_text q) texts
unfolding member quotes_of quote_text
member-quotes_of q [] = refl
member-quotes_of usdt (t ∷ texts) = ground (
  arith,
  member-quotes_of usdt texts,
  list_beq_iff t (codes "USDT"),
  list_beq_iff t (codes "USDC"),
)
member-quotes_of usdc (t ∷ texts) = ground (
  arith,
  member-quotes_of usdc texts,
  list_beq_iff t (codes "USDT"),
  list_beq_iff t (codes "USDC"),
)

-- Of the supervisor's exchange and market, in a listed quote currency, not denied, and allowed if
-- only some are.
pub Kept : BinancePerpConfig → Exchange → MarketType → SymbolSpec → Type 0
Kept cfg exchange market_type s =
    (s.exchange ≡ exchange)
    × (s.market_type ≡ market_type)
    × (member (quote_text s.quote) cfg.include_quotes ≡ true)
    × (member s.symbol cfg.deny ≡ false)
    × ((is_empty cfg.allow ≡ true) ⊎ (member s.symbol cfg.allow ≡ true))

is_kept_iff :
    (cfg : BinancePerpConfig) (exchange : Exchange) (market_type : MarketType) (s : SymbolSpec)
    → (is_kept cfg exchange market_type s ≡ true) ↔ Kept cfg exchange market_type s
unfolding is_kept Kept
is_kept_iff cfg exchange market_type s = ground (
  arith,
  exchange_beq_iff s.exchange exchange,
  market_beq_iff s.market_type market_type,
  member-quotes_of s.quote cfg.include_quotes,
)

-- A symbol passes the filter exactly when the exchange lists it, it is of the supervisor's exchange
-- and market, its quote currency is one of those to include, it is not denied, and it is allowed if
-- the settings allow only some.
pub filter_symbols_iff :
    (specs : List SymbolSpec) (cfg : BinancePerpConfig) (exchange : Exchange)
    (market_type : MarketType) (s : SymbolSpec)
    → Memᴰ s (filter_symbols specs cfg exchange market_type)
      ↔ (Memᴰ s specs × Kept cfg exchange market_type s)
unfolding filter_symbols
filter_symbols_iff [] cfg exchange market_type s =
    (λ m. absurd (Memᴰ.not-nil m), λ (m, _). absurd (Memᴰ.not-nil m))
filter_symbols_iff (t ∷ specs) cfg exchange market_type s =
    let rest = filter_symbols_iff specs cfg exchange market_type s in
    elim (Bool-cases (is_kept cfg exchange market_type t)) [
      | inl hit ↦ rw hit (
        λ m. elim (Memᴰ.cases_cons m) [
          | inl e ↦ (Memᴰ.head e, rw e ((is_kept_iff cfg exchange market_type t).0 hit))
          | inr later ↦ let (listed, kept) = rest.0 later in (Memᴰ.tail listed, kept)
        ],
        λ (m, kept). elim (Memᴰ.cases_cons m) [
          | inl e ↦ Memᴰ.head e
          | inr later ↦ Memᴰ.tail (rest.1 (later, kept))
        ],
      )
      | inr miss ↦ rw miss (
        λ m. let (listed, kept) = rest.0 m in (Memᴰ.tail listed, kept),
        λ (m, kept). elim (Memᴰ.cases_cons m) [
          | inl e ↦
              absurd
                (ground (arith, miss, (is_kept_iff cfg exchange market_type t).1 (rw (sym e) kept)))
          | inr later ↦ rest.1 (later, kept)
        ],
      )
    ]
