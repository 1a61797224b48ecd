-- ===== src/Adapters/Ticks/Listed.antt =====
-- The instruments that BingX's and KuCoin's loops push have a tick and a step.
use mathlib.Core.Path.{subst}
use trading_terminal_cluster.Common.{ℕ, ◌≡◌, sym, inl, inr, Option, some, arith}
use trading_terminal_cluster.Common.Int.{ℤ, pos, leb_ℤ}
use trading_terminal_cluster.Common.Tests.{Option-cases, Bool-cases}
use trading_terminal_cluster.Common.Text.{Text, codes}
use trading_terminal_cluster.Common.Json.{Json, and_then, or_default, str_field}
use trading_terminal_cluster.Core.{Exchange, MarketType, Quote, SymbolSpec}
use trading_terminal_cluster.Scale.{parse_scaled, count_decimals_trimmed}
use trading_terminal_cluster.Adapters.{make_spec, ok_or_none}
use trading_terminal_cluster.Adapters
use trading_terminal_cluster.Adapters.Bingx
use trading_terminal_cluster.Adapters.Kucoin
use trading_terminal_cluster.Adapters.Kucoin.Instruments.{KucoinCategory, futures, spot_pairs}
use trading_terminal_cluster.Adapters.Okx.{multiply_decimal_strs}
use trading_terminal_cluster.Adapters.Kucoin.{decimal_fraction}
use trading_terminal_cluster.Adapters.Okx.Instruments.{pushed}
use trading_terminal_cluster.Adapters.Ticks.{
  Positive, Sizes, Ticked, Result-cases, make_spec-Ticked, spec_from-Ticked, at_least_one-Positive,
  one-Positive, positive, if-some,
}

bingx_step :
    (json : Json) (up : Text → Text) (fmt : json.Value → Option Text) (text : Option Text) (n : ℕ)
    → Positive (Bingx.Instruments.step_of json up fmt text n)
unfolding Bingx.Instruments.step_of
bingx_step json up fmt text n =
    at_least_one-Positive (and_then text (λ s. ok_or_none (parse_scaled s n)))

pub bingx-Ticked :
    (json : Json) (up : Text → Text) (fmt : json.Value → Option Text)
    (market : Exchange × MarketType) (sizes : json.Value → ℕ × ℕ × ℤ × ℤ)
    → ((it : json.Value) → Sizes (sizes it))
    → (it : json.Value) (spec : SymbolSpec)
    → Bingx.Instruments.listed json up fmt market sizes it ≡ some spec
    → Ticked spec
unfolding Bingx.Instruments.listed
bingx-Ticked json up fmt market sizes good it spec h =
    spec_from-Ticked market _ _ (some (sizes it)) spec (λ p e. rw (sym (given e)) (good it))
      (if-some (Bingx.Instruments.is_online json up fmt it) _ h)
  where
    given : {p : ℕ × ℕ × ℤ × ℤ} → some (sizes it) ≡ some p → sizes it ≡ p
    given e = ground (arith, e)

pub swap_sizes-Sizes :
    (json : Json) (up : Text → Text) (fmt : json.Value → Option Text) (it : json.Value)
    → Sizes (Bingx.Instruments.swap_sizes json up fmt it)
unfolding Bingx.Instruments.swap_sizes
swap_sizes-Sizes json up fmt it = (one-Positive, bingx_step json up fmt _ _)

pub spot_sizes-Sizes :
    (json : Json) (up : Text → Text) (fmt : json.Value → Option Text) (it : json.Value)
    → Sizes (Bingx.Instruments.spot_sizes json up fmt it)
unfolding Bingx.Instruments.spot_sizes
spot_sizes-Sizes json up fmt it =
    let tick_str =
      or_default (codes "0.01")
        (Bingx.Instruments.num_str json up fmt (json.get (codes "tickSize") it)) in
    let step_str =
      or_default (codes "0.000001")
        (Bingx.Instruments.num_str json up fmt (json.get (codes "stepSize") it)) in
    (
      bingx_step json up fmt (some tick_str) (count_decimals_trimmed tick_str),
      bingx_step json up fmt (some step_str) (count_decimals_trimmed step_str),
    )

pub kucoin_step : (s : Text) (n : ℕ) → Positive (Kucoin.Instruments.step_of s n)
unfolding Kucoin.Instruments.step_of
kucoin_step s n = at_least_one-Positive (ok_or_none (parse_scaled s n))

pub contract_turn-Ticked :
    (market : Exchange × MarketType) (quote : Quote) (symbol tick_str lot_str mult_str : Text)
    (tick : ℤ) (spec : SymbolSpec) (ct : Option (ℤ × ℤ))
    → Positive tick
    → Kucoin.Instruments.contract_turn market quote symbol tick_str lot_str mult_str tick
      ≡ pushed spec ct
    → Ticked spec
unfolding Kucoin.Instruments.contract_turn
contract_turn-Ticked market quote symbol tick_str lot_str mult_str tick spec ct good h =
    elim (Option-cases (multiply_decimal_strs lot_str mult_str)) [
      | inl panic ↦ absurd (ground (arith, panic, h))
      | inr (lot, hl) ↦ elim (Option-cases (decimal_fraction mult_str)) [
        | inl panic ↦ absurd (ground (arith, hl, panic, h))
        | inr (value, hv) ↦
            let sizes : ℕ × ℕ × ℤ × ℤ = (
              count_decimals_trimmed tick_str,
              count_decimals_trimmed lot,
              tick,
              Kucoin.Instruments.step_of lot (count_decimals_trimmed lot),
            ) in
            let same : make_spec market quote symbol sizes ≡ spec = ground (arith, hl, hv, h) in
            subst Ticked same (
              make_spec-Ticked market quote symbol sizes
                (good, kucoin_step lot (count_decimals_trimmed lot)))
      ]
    ]

futures_turn-Ticked :
    (quote : Quote) (symbol tick_str lot_str mult_str : Text) (spec : SymbolSpec)
    (ct : Option (ℤ × ℤ))
    → Kucoin.Instruments.futures_turn quote symbol tick_str lot_str mult_str ≡ pushed spec ct
    → Ticked spec
unfolding Kucoin.Instruments.futures_turn
futures_turn-Ticked quote symbol tick_str lot_str mult_str spec ct h =
    elim (Result-cases (parse_scaled tick_str (count_decimals_trimmed tick_str))) [
      | inl (e, bad) ↦ absurd (ground (arith, bad, h))
      | inr (tick, ht) ↦ elim (Bool-cases (leb_ℤ tick (pos 0))) [
        | inl zero_tick ↦ absurd (ground (arith, ht, zero_tick, h))
        | inr above ↦
            contract_turn-Ticked (Kucoin.Instruments.market_of futures) quote symbol tick_str
              lot_str mult_str tick spec ct (positive tick above) (ground (arith, ht, above, h))
      ]
    ]

spot_turn-Ticked :
    (quote : Quote) (symbol tick_str step_str : Text) (spec : SymbolSpec) (ct : Option (ℤ × ℤ))
    → Kucoin.Instruments.spot_turn quote symbol tick_str step_str ≡ pushed spec ct
    → Ticked spec
unfolding Kucoin.Instruments.spot_turn
spot_turn-Ticked quote symbol tick_str step_str spec ct h =
    let sizes : ℕ × ℕ × ℤ × ℤ = (
      count_decimals_trimmed tick_str,
      count_decimals_trimmed step_str,
      Kucoin.Instruments.step_of tick_str (count_decimals_trimmed tick_str),
      Kucoin.Instruments.step_of step_str (count_decimals_trimmed step_str),
    ) in
    let same : make_spec (Kucoin.Instruments.market_of spot_pairs) quote symbol sizes ≡ spec =
      ground (arith, h) in
    subst Ticked same (
      make_spec-Ticked (Kucoin.Instruments.market_of spot_pairs) quote symbol sizes (
        kucoin_step tick_str (count_decimals_trimmed tick_str),
        kucoin_step step_str (count_decimals_trimmed step_str),
      ))

push_turn-Ticked :
    (json : Json) (up : Text → Text) (c : KucoinCategory) (quote : Quote) (symbol : Text)
    (s : json.Value) (spec : SymbolSpec) (ct : Option (ℤ × ℤ))
    → Kucoin.Instruments.push_turn json up c quote symbol s ≡ pushed spec ct
    → Ticked spec
unfolding Kucoin.Instruments.push_turn
push_turn-Ticked json up futures quote symbol s spec ct h =
    let found =
      λ (n : Text) (key : Text). or_default n (Kucoin.Instruments.num_or_str json up key s) in
    futures_turn-Ticked quote symbol (found (codes "0.1") (codes "tickSize"))
      (found (codes "1") (codes "lotSize")) (found (codes "1") (codes "multiplier")) spec ct h
push_turn-Ticked json up spot_pairs quote symbol s spec ct h =
    let found =
      λ (key : Text). or_default (codes "0.0001") (Kucoin.Instruments.num_or_str json up key s) in
    spot_turn-Ticked quote symbol (found (codes "priceIncrement")) (found (codes "baseIncrement"))
      spec ct h

-- Whatever a turn of KuCoin's loop pushes.
pub kucoin-Ticked :
    (json : Json) (up : Text → Text) (c : KucoinCategory) (s : json.Value) (spec : SymbolSpec)
    (ct : Option (ℤ × ℤ))
    → Kucoin.Instruments.turn json up c s ≡ pushed spec ct
    → Ticked spec
unfolding Kucoin.Instruments.turn
kucoin-Ticked json up c s spec ct h = elim (Bool-cases (Kucoin.Instruments.is_closed json up c s)) [
  | inl closed ↦ absurd (ground (arith, closed, h))
  | inr open_one ↦ elim (Option-cases (str_field json (codes "quoteCurrency") s)) [
    | inl skip ↦ absurd (ground (arith, open_one, skip, h))
    | inr (quote_str, hq) ↦ elim (Option-cases (Adapters.quote_of quote_str)) [
      | inl skip ↦ absurd (ground (arith, open_one, hq, skip, h))
      | inr (quote, known) ↦
          elim (Option-cases (Kucoin.Instruments.symbol_of json up c quote_str s)) [
            | inl skip ↦ absurd (ground (arith, open_one, hq, known, skip, h))
            | inr (symbol, named) ↦
                push_turn-Ticked json up c quote symbol s spec ct
                  (ground (arith, open_one, hq, known, named, h))
          ]
    ]
  ]
]
