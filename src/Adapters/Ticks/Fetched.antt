-- ===== src/Adapters/Ticks/Fetched.antt =====
-- What the supervisor gets of an exchange: the instruments that one of seven adapters reads.
use trading_terminal_cluster.Common.{Option, List, [], ◌∷◌, ◌≡◌, inl, inr, some, arith}
use trading_terminal_cluster.Common.Lists.{All}
use trading_terminal_cluster.Common.Tests.{Option-cases}
use trading_terminal_cluster.Common.Text.{Text, codes}
use mathlib.Core.Path.{subst}
use trading_terminal_cluster.Common.Json.{Json, array_field, and_then}
use trading_terminal_cluster.Core.{SymbolSpec}
use trading_terminal_cluster.Scale.{Result, ok, err, ◌>>=◌}
use trading_terminal_cluster.Adapters.{filter_map, require}
use trading_terminal_cluster.Adapters.Bybit
use trading_terminal_cluster.Adapters.Bybit.{BybitCategory}
use trading_terminal_cluster.Adapters.Bitget
use trading_terminal_cluster.Adapters.Bitget.{BitgetCategory, perpetuals, sizes_from}
use trading_terminal_cluster.Adapters.Hyperliquid
use trading_terminal_cluster.Adapters.Hyperliquid.{NativeMap, set_native}
use trading_terminal_cluster.Adapters.Okx.{CtMap}
use trading_terminal_cluster.Adapters.Okx.Instruments
use trading_terminal_cluster.Adapters.Okx.Instruments.{
  OkxCategory, swap, spot_pairs, Turn, skipped, panicked, pushed, register, after_push,
}
use trading_terminal_cluster.Adapters.Ticks.{
  Positive, Ticked, All-filter_map, Result-cases, bybit-Ticked, bitget-Ticked,
}
use trading_terminal_cluster.Adapters.Ticks.Okx.{okx_turns-Ticked, turns_of-Ticked}
use trading_terminal_cluster.Mexc
use trading_terminal_cluster.Adapters.Ticks.Mexc.{mexc_spot-Ticked, mexc_futures-Ticked}
use trading_terminal_cluster.Adapters.Ticks.Listed.{
  bingx-Ticked, swap_sizes-Sizes, spot_sizes-Sizes, kucoin-Ticked,
}
use trading_terminal_cluster.Adapters.Bingx
use trading_terminal_cluster.Adapters.Kucoin
use trading_terminal_cluster.Adapters.Kucoin.Instruments.{KucoinCategory}
use trading_terminal_cluster.Core
use trading_terminal_cluster.Core.{bingx_f, spot, perp}

hyperliquid-Ticked :
    (json : Json) (to_uppercase : Text → Text) (item : json.Value) (spec : SymbolSpec) (name : Text)
    → Hyperliquid.listed json to_uppercase item ≡ some (spec, name)
    → Ticked spec
unfolding Hyperliquid.listed Ticked Positive
hyperliquid-Ticked json to_uppercase item spec name h =
    ((0, ground (arith, h)), (0, ground (arith, h)))

pub hyperliquid_list-Ticked :
    (json : Json) (up : Text → Text) (universe : List json.Value) (m : NativeMap)
    → All Ticked (Hyperliquid.list_all json up universe m).0
unfolding Hyperliquid.list_all
hyperliquid_list-Ticked json up [] m = _
hyperliquid_list-Ticked json up (item ∷ universe) m =
    elim (Option-cases (Hyperliquid.listed json up item)) [
      | inl skip ↦
          subst (All Ticked) (ground (arith, skip)) (hyperliquid_list-Ticked json up universe m)
      | inr ((spec, name), hit) ↦
          let rest = Hyperliquid.list_all json up universe (set_native spec.symbol name m) in
          let both : All Ticked (spec ∷ rest.0) = (
            hyperliquid-Ticked json up item spec name hit,
            hyperliquid_list-Ticked json up universe (set_native spec.symbol name m),
          ) in
          let same : spec ∷ rest.0 ≡ (Hyperliquid.list_all json up (item ∷ universe) m).0 =
            ground (arith, hit) in
          subst (All Ticked) same both
    ]

-- What a fetch of symbols returned: the answer of an exchange, read by its adapter.
pub data Fetched (json : Json) (up : Text → Text) : List SymbolSpec → Type 0 where
  bybit :
      {specs : List SymbolSpec} (c : BybitCategory) (text : Text)
      → Bybit.parse_instruments_info json c text ≡ ok specs
      → Fetched json up specs
  bitget :
      {specs : List SymbolSpec} (c : BitgetCategory) (text : Text)
      → Bitget.parse_instruments json up c text ≡ ok specs
      → Fetched json up specs
  okx :
      {specs : List SymbolSpec} (c : OkxCategory) (text : Text) (m after : CtMap)
      → Instruments.parse_instruments json up c text m ≡ some (ok (specs, after))
      → Fetched json up specs
  hyperliquid :
      {specs : List SymbolSpec} (text : Text) (m after : NativeMap)
      → Hyperliquid.parse_meta json up text m ≡ ok (specs, after)
      → Fetched json up specs
  bingx_swap :
      {specs : List SymbolSpec} (fmt_number : json.Value → Option Text) (text : Text)
      → Bingx.Instruments.parse_swap json up fmt_number text ≡ ok specs
      → Fetched json up specs
  bingx_spot :
      {specs : List SymbolSpec} (fmt_number : json.Value → Option Text) (text : Text)
      → Bingx.Instruments.parse_spot json up fmt_number text ≡ ok specs
      → Fetched json up specs
  kucoin :
      {specs : List SymbolSpec} (c : KucoinCategory) (text : Text) (m after : CtMap)
      → Kucoin.Instruments.parse_instruments json up c text m ≡ some (ok (specs, after))
      → Fetched json up specs
  mexc_spot :
      {specs : List SymbolSpec} (fmt_number : json.Value → Option Text) (text : Text)
      → Mexc.Instruments.parse_spot json up fmt_number text ≡ ok specs
      → Fetched json up specs
  mexc_futures :
      {specs : List SymbolSpec} (fmt_number : json.Value → Option Text) (text : Text)
      (m after : CtMap)
      → Mexc.Instruments.parse_futures json up fmt_number text m ≡ some (ok (specs, after))
      → Fetched json up specs

>>=-ok :
    {A B : Type 0} (r : Result A) (next : A → Result B) (b : B)
    → (r >>= next) ≡ ok b
    → (a : A) × (next a ≡ ok b)
>>=-ok (ok a) next b h = (a, h)
>>=-ok (err e) next b h = ground (arith, h)

pub Fetched-Ticked :
    (json : Json) (up : Text → Text) (specs : List SymbolSpec)
    → Fetched json up specs
    → All Ticked specs
unfolding Bybit.parse_instruments_info Bitget.parse_instruments Instruments.parse_instruments
    Hyperliquid.parse_meta Bingx.Instruments.parse_swap Bingx.Instruments.parse_spot
    Kucoin.Instruments.parse_instruments Mexc.Instruments.parse_spot Mexc.Instruments.parse_futures
Fetched-Ticked json up specs (bybit c text h) =
    let (list, e) = >>=-ok (Bybit.result_list json text) _ specs h in
    let same : filter_map (Bybit.listed json c) list ≡ specs = ground (arith, e) in
    subst (All Ticked) same (All-filter_map Ticked (Bybit.listed json c) (bybit-Ticked json c) list)
Fetched-Ticked json up specs (bitget c text h) =
    let (list, e) = >>=-ok (Bitget.data_list json up text) _ specs h in
    let same : filter_map (Bitget.listed json up c) list ≡ specs = ground (arith, e) in
    subst (All Ticked) same
      (All-filter_map Ticked (Bitget.listed json up c) (bitget-Ticked json up c) list)
Fetched-Ticked json up specs (okx c text m after h) =
    elim (Result-cases (Instruments.data_list json up text)) [
      | inl (e, bad) ↦ absurd (ground (arith, bad, h))
      | inr (list, good) ↦ okx_turns-Ticked json up c list m after specs (ground (arith, good, h))
    ]
Fetched-Ticked json up specs (hyperliquid text m after h) =
    elim (Option-cases (json.from_str text)) [
      | inl bad ↦ absurd (ground (arith, bad, h))
      | inr (v, good) ↦ elim (Option-cases (array_field json (codes "universe") v)) [
        | inl bad ↦ absurd (ground (arith, good, bad, h))
        | inr (universe, found) ↦
            let same : (Hyperliquid.list_all json up universe m).0 ≡ specs =
              ground (arith, good, found, h) in
            subst (All Ticked) same (hyperliquid_list-Ticked json up universe m)
      ]
    ]
Fetched-Ticked json up specs (bingx_swap fmt text h) =
    let (v, e) = >>=-ok (Bingx.Instruments.ok_data json up fmt text) _ specs h in
    let (list, e2) =
      >>=-ok (require (codes "data") (array_field json (codes "data") v)) _ specs e in
    let take_one =
      Bingx.Instruments.listed json up fmt (bingx_f, perp)
        (Bingx.Instruments.swap_sizes json up fmt) in
    let same : filter_map take_one list ≡ specs = ground (arith, e2) in
    subst (All Ticked) same (
      All-filter_map Ticked take_one
        (bingx-Ticked json up fmt (bingx_f, perp) (Bingx.Instruments.swap_sizes json up fmt)
          (swap_sizes-Sizes json up fmt))
        list)
Fetched-Ticked json up specs (bingx_spot fmt text h) =
    let (v, e) = >>=-ok (Bingx.Instruments.ok_data json up fmt text) _ specs h in
    let (list, e2) =
      >>=-ok
        (require (codes "data.symbols")
          (and_then (json.get (codes "data") v) (λ d. array_field json (codes "symbols") d)))
        _ specs e in
    let take_one =
      Bingx.Instruments.listed json up fmt (Core.bingx, spot)
        (Bingx.Instruments.spot_sizes json up fmt) in
    let same : filter_map take_one list ≡ specs = ground (arith, e2) in
    subst (All Ticked) same (
      All-filter_map Ticked take_one
        (bingx-Ticked json up fmt (Core.bingx, spot) (Bingx.Instruments.spot_sizes json up fmt)
          (spot_sizes-Sizes json up fmt))
        list)
Fetched-Ticked json up specs (kucoin c text m after h) =
    elim (Result-cases (Kucoin.Instruments.data_list json up text)) [
      | inl (e, bad) ↦ absurd (ground (arith, bad, h))
      | inr (list, good) ↦
          turns_of-Ticked (Kucoin.Instruments.turn json up c) (kucoin-Ticked json up c) list m after
            specs (ground (arith, good, h))
    ]
Fetched-Ticked json up specs (mexc_spot fmt text h) = elim (Option-cases (json.from_str text)) [
  | inl bad ↦ absurd (ground (arith, bad, h))
  | inr (v, good) ↦
      let parsed : (require (codes "symbols") (array_field json (codes "symbols") v) >>= λ list.
      ok (filter_map (Mexc.Instruments.spot_listed json up fmt) list))
          ≡ ok specs =
        ground (arith, good, h) in
      let (list, e) =
        >>=-ok (require (codes "symbols") (array_field json (codes "symbols") v)) _ specs parsed in
      let same : filter_map (Mexc.Instruments.spot_listed json up fmt) list ≡ specs =
        ground (arith, e) in
      subst (All Ticked) same (
        All-filter_map Ticked (Mexc.Instruments.spot_listed json up fmt)
          (mexc_spot-Ticked json up fmt) list)
]
Fetched-Ticked json up specs (mexc_futures fmt text m after h) =
    elim (Option-cases (json.from_str text)) [
      | inl bad ↦ absurd (ground (arith, bad, h))
      | inr (v, good) ↦ elim (Option-cases (array_field json (codes "data") v)) [
        | inl bad ↦ absurd (ground (arith, good, bad, h))
        | inr (list, found) ↦
            turns_of-Ticked (Mexc.Instruments.turn json up fmt) (mexc_futures-Ticked json up fmt)
              list m after specs (ground (arith, good, found, h))
      ]
    ]
