-- ===== src/Adapters/Ticks.antt =====
-- What the adapters' instruments have in common: a tick and a step of at least one.
pub mod Okx
pub mod Listed
pub mod Mexc
pub mod Fetched
use trading_terminal_cluster.Common.{
  ℕ, suc, ◌-◌, List, [], ◌∷◌, ◌≡◌, ◌⊎◌, refl, sym, inl, inr, Bool, true, false, ◌||◌, Option, none,
  some, arith,
}
use trading_terminal_cluster.Common.Int.{ℤ, pos, negsuc, leb_ℤ}
use trading_terminal_cluster.Common.Lists.{All}
use trading_terminal_cluster.Common.Tests.{if◌then◌else◌, Option-cases, Bool-cases}
use trading_terminal_cluster.Common.Text.{Text, codes}
use mathlib.Core.Path.{subst}
use trading_terminal_cluster.Common.Json.{Json, and_then, or_default, str_field, array_field}
use trading_terminal_cluster.Common.Machine.{max_i64}
use trading_terminal_cluster.Common.Parse.{parse_signed_to}
use trading_terminal_cluster.Core.{Exchange, MarketType, Quote, SymbolSpec}
use trading_terminal_cluster.Scale.{
  ParseError, Result, ok, err, ◌>>=◌, is_empty, parse_scaled, count_decimals_trimmed,
}
use trading_terminal_cluster.Adapters.{
  make_spec, spec_from, filter_map, push_some, scaled_sizes, at_least_one, ok_or_none,
}
use trading_terminal_cluster.Adapters.Bybit
use trading_terminal_cluster.Adapters.Bybit.{BybitCategory}
use trading_terminal_cluster.Adapters.Bitget
use trading_terminal_cluster.Adapters.Bitget.{BitgetCategory, perpetuals, sizes_from}
use trading_terminal_cluster.Adapters.Hyperliquid
use trading_terminal_cluster.Adapters.Hyperliquid.{NativeMap, set_native}
use trading_terminal_cluster.Adapters.Okx.{CtMap, normalize_inst_id}
use trading_terminal_cluster.Adapters.Okx.Instruments
use trading_terminal_cluster.Adapters.Okx.Instruments.{
  OkxCategory, swap, spot_pairs, Turn, skipped, panicked, pushed, register, after_push,
}

-- At least one.
unfoldable pub Positive : ℤ → Type 0
Positive z = (n : ℕ) × (z ≡ pos (suc n))

unfoldable pub Ticked : SymbolSpec → Type 0
unfolding Positive
Ticked s = Positive s.tick_size × Positive s.step_size

positive : (z : ℤ) → leb_ℤ z (pos 0) ≡ false → Positive z
unfolding Positive
positive (pos n) h = (n - 1, ground arith)
positive (negsuc n) h = ground arith

pub All-filter_map {ℓ κ} :
    {A : Type ℓ} {B : Type κ} (P : B → Type 0) (f : A → Option B)
    → ((a : A) (b : B) → f a ≡ some b → P b)
    → (xs : List A) → All P (filter_map f xs)
unfolding filter_map
All-filter_map P f h [] = _
All-filter_map P f h (x ∷ xs) = elim (Option-cases (f x)) [
  | inl skip ↦ rw skip (All-filter_map P f h xs)
  | inr (b, hit) ↦ rw hit (h x b hit, All-filter_map P f h xs)
]

abbrev pub Sizes : ℕ × ℕ × ℤ × ℤ → Type 0
Sizes p = Positive p.2 × Positive p.3

pub Result-cases :
    {A : Type 0} (r : Result A) → ((e : ParseError) × (r ≡ err e)) ⊎ ((a : A) × (r ≡ ok a))
Result-cases (ok a) = inr (a, refl)
Result-cases (err e) = inl (e, refl)

pair-Sizes :
    (a b : ℕ) (tick step : ℤ) (p : ℕ × ℕ × ℤ × ℤ)
    → (if leb_ℤ tick (pos 0) || leb_ℤ step (pos 0) then none else some (a, b, tick, step)) ≡ some p
    → Sizes p
pair-Sizes a b tick step p h =
    let above : (leb_ℤ tick (pos 0) ≡ false) × (leb_ℤ step (pos 0) ≡ false) =
      (ground (arith, h), ground (arith, h)) in
    let p_is : (a, b, tick, step) ≡ p = ground (arith, above.0, above.1, h) in
    rw (sym p_is) (positive tick above.0, positive step above.1)

pub scaled_sizes-Positive :
    (tick_str step_str : Text) (p : ℕ × ℕ × ℤ × ℤ)
    → scaled_sizes tick_str step_str ≡ some p
    → Sizes p
unfolding scaled_sizes
scaled_sizes-Positive tick_str step_str p h =
    elim (Result-cases (parse_scaled tick_str (count_decimals_trimmed tick_str))) [
      | inl (e, bad) ↦ absurd (ground (arith, bad, h))
      | inr (tick, ht) ↦
          elim (Result-cases (parse_scaled step_str (count_decimals_trimmed step_str))) [
            | inl (e, bad) ↦ absurd (ground (arith, ht, bad, h))
            | inr (step, hs) ↦
                pair-Sizes (count_decimals_trimmed tick_str) (count_decimals_trimmed step_str) tick
                  step p (ground (arith, ht, hs, h))
          ]
    ]

pub at_least_one-Positive : (o : Option ℤ) → Positive (at_least_one o)
unfolding at_least_one Positive
at_least_one-Positive none = (0, refl)
at_least_one-Positive (some (negsuc n)) = (0, ground arith)
at_least_one-Positive (some (pos n)) = (n - 1, ground arith)

pub make_spec-Ticked :
    (market : Exchange × MarketType) (quote : Quote) (symbol : Text) (p : ℕ × ℕ × ℤ × ℤ)
    → Sizes p
    → Ticked (make_spec market quote symbol p)
unfolding Ticked make_spec
make_spec-Ticked market quote symbol p h = h

spec_from-Ticked :
    (market : Exchange × MarketType) (symbol : Option Text) (quote : Option Quote)
    (sizes : Option (ℕ × ℕ × ℤ × ℤ)) (spec : SymbolSpec)
    → ((p : ℕ × ℕ × ℤ × ℤ) → sizes ≡ some p → Sizes p)
    → spec_from market symbol quote sizes ≡ some spec
    → Ticked spec
unfolding spec_from Ticked
spec_from-Ticked market (some x) (some q) (some p) spec h made =
    let same : make_spec market q x p ≡ spec = ground (arith, made) in
    rw (sym same) (make_spec-Ticked market q x p (h p refl))
spec_from-Ticked market none quote sizes spec h made = ground (arith, made)
spec_from-Ticked market (some x) none sizes spec h made = ground (arith, made)
spec_from-Ticked market (some x) (some q) none spec h made = ground (arith, made)

if-some :
    {A : Type 0} (b : Bool) (o : Option A) {a : A} → (if b then o else none) ≡ some a → o ≡ some a
if-some b o h = ground arith

if_not-some :
    {A : Type 0} (b : Bool) (o : Option A) {a : A} → (if b then none else o) ≡ some a → o ≡ some a
if_not-some b o h = ground arith

bybit_sizes :
    (tick_str step_str : Text) (p : ℕ × ℕ × ℤ × ℤ)
    → Bybit.sizes tick_str step_str ≡ some p
    → Sizes p
unfolding Bybit.sizes
bybit_sizes tick_str step_str p h =
    scaled_sizes-Positive tick_str step_str p
      (if_not-some (is_empty tick_str || is_empty step_str) _ h)

pub bybit-Ticked :
    (json : Json) (c : BybitCategory) (s : json.Value) (spec : SymbolSpec)
    → Bybit.listed json c s ≡ some spec
    → Ticked spec
unfolding Bybit.listed
bybit-Ticked json c s spec h =
    spec_from-Ticked (Bybit.market_of c) _ _ _ spec (bybit_sizes _ _)
      (if-some (Bybit.is_trading json s) _ h)

sizes_from-Positive :
    (pp vp : Option ℕ) (tick : ℤ) (step : ℕ → ℤ) (p : ℕ × ℕ × ℤ × ℤ)
    → Positive tick
    → ((n : ℕ) → Positive (step n))
    → sizes_from pp vp tick step ≡ some p
    → Sizes p
unfolding sizes_from
sizes_from-Positive (some a) (some b) tick step p ht hs h =
    let p_is : (a, b, tick, step b) ≡ p = ground (arith, h) in rw (sym p_is) (ht, hs b)
sizes_from-Positive none vp tick step p ht hs h = ground (arith, h)
sizes_from-Positive (some a) none tick step p ht hs h = ground (arith, h)

one-Positive : Positive (pos 1)
unfolding Positive
one-Positive = (0, refl)

bitget_sizes-Positive :
    (json : Json) (to_uppercase : Text → Text) (c : BitgetCategory) (s : json.Value)
    (p : ℕ × ℕ × ℤ × ℤ)
    → Bitget.sizes json to_uppercase c s ≡ some p
    → Sizes p
unfolding Bitget.sizes
bitget_sizes-Positive json to_uppercase perpetuals s p h =
    sizes_from-Positive _ _ _ _ p
      (at_least_one-Positive
        (and_then (str_field json (codes "priceEndStep") s) (parse_signed_to max_i64)))
      (λ n.
        at_least_one-Positive
          (and_then (str_field json (codes "minTradeNum") s) (λ x. ok_or_none (parse_scaled x n))))
      h
bitget_sizes-Positive json to_uppercase Bitget.spot_pairs s p h =
    sizes_from-Positive _ _ _ _ p one-Positive (λ n. one-Positive) h

pub bitget-Ticked :
    (json : Json) (to_uppercase : Text → Text) (c : BitgetCategory) (s : json.Value)
    (spec : SymbolSpec)
    → Bitget.listed json to_uppercase c s ≡ some spec
    → Ticked spec
unfolding Bitget.listed
bitget-Ticked json to_uppercase c s spec h =
    spec_from-Ticked (Bitget.market_of c) _ _ _ spec (bitget_sizes-Positive json to_uppercase c s)
      (if_not-some (Bitget.is_dead json to_uppercase c s) _ h)
