-- ===== src/Adapters/Ticks/Mexc.antt =====
-- The instruments that MEXC's loops push have a tick and a step.
use mathlib.Core.Path.{subst}
use Prim.Native.Nat.{min}
use trading_terminal_cluster.Mexc
use trading_terminal_cluster.Common.Slices.{remove_char}
use trading_terminal_cluster.Common.Json.{and_then-some, u64_field}
use trading_terminal_cluster.Core.{mexc, mexc_f, spot, perp}
use trading_terminal_cluster.Common.{ℕ, ◌≡◌, inl, inr, Option, some, arith}
use trading_terminal_cluster.Common.Int.{ℤ, pos}
use trading_terminal_cluster.Common.Tests.{Option-cases, Bool-cases}
use trading_terminal_cluster.Common.Text.{Text, codes}
use trading_terminal_cluster.Common.Json.{Json, str_field}
use trading_terminal_cluster.Core.{Quote, SymbolSpec}
use trading_terminal_cluster.Scale.{count_decimals_trimmed}
use trading_terminal_cluster.Adapters.Kucoin
use trading_terminal_cluster.Adapters.Kucoin.Instruments.{KucoinCategory, futures, spot_pairs}
use trading_terminal_cluster.Adapters.Kucoin.{decimal_fraction}
use trading_terminal_cluster.Adapters.Okx.Instruments.{pushed}
use trading_terminal_cluster.Adapters.Ticks.{
  Sizes, Ticked, spec_from-Ticked, one-Positive, if_not-some,
}
use trading_terminal_cluster.Adapters.Ticks.Listed.{kucoin_step, contract_turn-Ticked}

mexc-Sizes :
    (json : Json) (up : Text → Text) (fmt : json.Value → Option Text) (s : json.Value)
    (p : ℕ × ℕ × ℤ × ℤ)
    → Mexc.Instruments.spot_sizes json up fmt s ≡ some p
    → Sizes p
unfolding Mexc.Instruments.spot_sizes
mexc-Sizes json up fmt s p h =
    let step_str = Mexc.Instruments.step_text (str_field json (codes "baseSizePrecision") s) in
    let scale = count_decimals_trimmed step_str in
    let (n, _, e) = and_then-some (u64_field json (codes "quotePrecision") s) _ h in
    let same : (min n 255, scale, pos 1, Kucoin.Instruments.step_of step_str scale) ≡ p =
      ground (arith, e) in
    subst Sizes same (one-Positive, kucoin_step step_str scale)

pub mexc_spot-Ticked :
    (json : Json) (up : Text → Text) (fmt : json.Value → Option Text) (s : json.Value)
    (spec : SymbolSpec)
    → Mexc.Instruments.spot_listed json up fmt s ≡ some spec
    → Ticked spec
unfolding Mexc.Instruments.spot_listed
mexc_spot-Ticked json up fmt s spec h =
    spec_from-Ticked (mexc, spot) _ _ _ spec (mexc-Sizes json up fmt s)
      (if_not-some (Mexc.Instruments.is_halted json up fmt s) _ h)

mexc_contract-Ticked :
    (json : Json) (up : Text → Text) (fmt : json.Value → Option Text) (venue : Text) (quote : Quote)
    (s : json.Value) (spec : SymbolSpec) (ct : Option (ℤ × ℤ))
    → Mexc.Instruments.contract_of_venue json up fmt venue quote s ≡ pushed spec ct
    → Ticked spec
unfolding Mexc.Instruments.contract_of_venue
mexc_contract-Ticked json up fmt venue quote s spec ct h =
    let field = Mexc.Instruments.decimal_field json up fmt in
    let tick = field (codes "priceUnit") (codes "0.01") s in
    contract_turn-Ticked (mexc_f, perp) quote (remove_char b'_' venue) tick
      (field (codes "volUnit") (codes "1") s) (field (codes "contractSize") (codes "1") s)
      (Kucoin.Instruments.step_of tick (count_decimals_trimmed tick)) spec ct
      (kucoin_step tick (count_decimals_trimmed tick)) h

pub mexc_futures-Ticked :
    (json : Json) (up : Text → Text) (fmt : json.Value → Option Text) (s : json.Value)
    (spec : SymbolSpec) (ct : Option (ℤ × ℤ))
    → Mexc.Instruments.turn json up fmt s ≡ pushed spec ct
    → Ticked spec
unfolding Mexc.Instruments.turn
mexc_futures-Ticked json up fmt s spec ct h =
    elim (Bool-cases (Mexc.Instruments.is_enabled json up fmt s)) [
      | inr off ↦ absurd (ground (arith, off, h))
      | inl on ↦ elim (Option-cases (str_field json (codes "symbol") s)) [
        | inl skip ↦ absurd (ground (arith, on, skip, h))
        | inr (symbol, hs) ↦ elim (Option-cases (Mexc.Instruments.venue_quote (up symbol))) [
          | inl skip ↦ absurd (ground (arith, on, hs, skip, h))
          | inr (quote, hq) ↦
              mexc_contract-Ticked json up fmt (up symbol) quote s spec ct
                (ground (arith, on, hs, hq, h))
        ]
      ]
    ]
