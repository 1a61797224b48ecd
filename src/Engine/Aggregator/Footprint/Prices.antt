-- ===== src/Engine/Aggregator/Footprint/Prices.antt =====
-- The open, close, high and low prices are those of the window's trades.
use trading_terminal_cluster.Common.{
  ◌≤◌, List, [], ◌∷◌, ◌≡◌, refl, sym, ◌∙◌, inl, inr, arith, false,
}
use mathlib.Core.Path.{subst}
use trading_terminal_cluster.Common.Lists.{All}
use trading_terminal_cluster.Common.Tests.{if◌then◌else◌, Bool-cases}
use trading_terminal_cluster.Common.Int.{ℤ, pos, pos_part, ◌≤ℤ◌, ltb_ℤ, int_beq}
use trading_terminal_cluster.Core.{TradePrint}
use trading_terminal_cluster.Engine.Aggregator.{Aggregator, record_trade, update_ohlc}
use trading_terminal_cluster.Engine.Aggregator.Footprint.{IsRegular, IsBar, Attains, oldest_price}

-- The bar of a state, with no trade yet or with some.
abbrev pub BarOf : Aggregator → List TradePrint → Type 0
BarOf a [] = a.open_price ≡ pos 0
BarOf a (t ∷ ts) = IsBar a.open_price a.close_price a.high_price a.low_price (t ∷ ts)

oldest_price_pos :
    (t : TradePrint) (ts : List TradePrint)
    → All IsRegular (t ∷ ts)
    → 1 ≤ pos_part (oldest_price t ts)
oldest_price_pos t [] (h, _) = h.1
oldest_price_pos t (s ∷ ts) (_, hs) = oldest_price_pos s ts hs

below_mono :
    (x y : ℤ) (ts : List TradePrint)
    → x ≤ℤ y
    → All (λ s. s.price ≤ℤ x) ts
    → All (λ s. s.price ≤ℤ y) ts
below_mono x y [] h _ = tt
below_mono x y (t ∷ ts) h (b, bs) = (omega arith, below_mono x y ts h bs)

above_mono :
    (x y : ℤ) (ts : List TradePrint)
    → y ≤ℤ x
    → All (λ s. x ≤ℤ s.price) ts
    → All (λ s. y ≤ℤ s.price) ts
above_mono x y [] h _ = tt
above_mono x y (t ∷ ts) h (b, bs) = (omega arith, above_mono x y ts h bs)

abbrev max_ℤ : ℤ → ℤ → ℤ
max_ℤ h p = if ltb_ℤ h p then p else h

abbrev min_ℤ : ℤ → ℤ → ℤ
min_ℤ l p = if ltb_ℤ p l then p else l

max_ℤ-above : (h p : ℤ) → (h ≤ℤ max_ℤ h p) × (p ≤ℤ max_ℤ h p)
max_ℤ-above h p = ground arith

min_ℤ-below : (l p : ℤ) → (min_ℤ l p ≤ℤ l) × (min_ℤ l p ≤ℤ p)
min_ℤ-below l p = ground arith

max_ℤ-Attains :
    (h : ℤ) (t : TradePrint) (ts : List TradePrint)
    → Attains h ts
    → Attains (max_ℤ h t.price) (t ∷ ts)
max_ℤ-Attains h t ts r = elim (Bool-cases (ltb_ℤ h t.price)) [
  | inl higher ↦ inl (ground (arith, higher))
  | inr lower ↦ inr (subst (λ z. Attains z ts) (ground (arith, lower)) r)
]

min_ℤ-Attains :
    (l : ℤ) (t : TradePrint) (ts : List TradePrint)
    → Attains l ts
    → Attains (min_ℤ l t.price) (t ∷ ts)
min_ℤ-Attains l t ts r = elim (Bool-cases (ltb_ℤ t.price l)) [
  | inl lower ↦ inl (ground (arith, lower))
  | inr higher ↦ inr (subst (λ z. Attains z ts) (ground (arith, higher)) r)
]

first_prices :
    (a : Aggregator) (t : TradePrint) → a.open_price ≡ pos 0 → BarOf (record_trade a t) (t ∷ [])
unfolding record_trade update_ohlc
first_prices a t e = rw e (refl, refl, (omega arith, tt), inl refl, (omega arith, tt), inl refl)

next_prices :
    (a : Aggregator) (t : TradePrint)
    → int_beq a.open_price (pos 0) ≡ false
    → ((record_trade a t).open_price ≡ a.open_price)
      × ((record_trade a t).close_price ≡ t.price)
      × ((record_trade a t).high_price ≡ max_ℤ a.high_price t.price)
      × ((record_trade a t).low_price ≡ min_ℤ a.low_price t.price)
unfolding record_trade update_ohlc
next_prices a t e = ground arith

pub record_trade-BarOf :
    (a : Aggregator) (t : TradePrint) (ts : List TradePrint)
    → All IsRegular ts
    → BarOf a ts
    → BarOf (record_trade a t) (t ∷ ts)
record_trade-BarOf a t [] r e = first_prices a t e
record_trade-BarOf a t (s ∷ ts) r (o, c, hi, hi_at, lo, lo_at) =
    let nonzero : int_beq a.open_price (pos 0) ≡ false =
      ground (arith, o, oldest_price_pos s ts r) in
    let (eo, ec, eh, el) = next_prices a t nonzero in
    let (h_old, h_new) = max_ℤ-above a.high_price t.price in
    let (l_old, l_new) = min_ℤ-below a.low_price t.price in
    (
      eo ∙ o,
      ec,
      subst (λ z. All (λ r. r.price ≤ℤ z) (t ∷ s ∷ ts)) (sym eh)
          (h_new, below_mono a.high_price (max_ℤ a.high_price t.price) (s ∷ ts) h_old hi),
      subst (λ z. Attains z (t ∷ s ∷ ts)) (sym eh) (max_ℤ-Attains a.high_price t (s ∷ ts) hi_at),
      subst (λ z. All (λ r. z ≤ℤ r.price) (t ∷ s ∷ ts)) (sym el)
          (l_new, above_mono a.low_price (min_ℤ a.low_price t.price) (s ∷ ts) l_old lo),
      subst (λ z. Attains z (t ∷ s ∷ ts)) (sym el) (min_ℤ-Attains a.low_price t (s ∷ ts) lo_at),
    )
