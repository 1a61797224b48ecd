-- ===== src/Adapters/Prints.antt =====
-- Which trades the parsers of the adapters accept, and what they make of them.
pub mod Accepted
use mathlib.Core.Path.{subst}
use trading_terminal_cluster.Common.{List, [], ◌∷◌, ◌≡◌, ◌↔◌, refl, Option, none, some, arith}
use trading_terminal_cluster.Common.Int.{ℤ}
use trading_terminal_cluster.Common.Text.{Text, codes}
use trading_terminal_cluster.Common.Pairwise.{Pairwise, done, both}
use trading_terminal_cluster.Common.Json.{Json, array_field, or_default}
use trading_terminal_cluster.Core.{AggressorSide, SymbolSpec, TradePrint}
use trading_terminal_cluster.Scale.{Result, ok, err, ◌>>=◌, parse_scaled}
use trading_terminal_cluster.Adapters.Bybit
use trading_terminal_cluster.Adapters.Bitget
use trading_terminal_cluster.Adapters.{Fields, read_print, collect, trade_id_of, nanoseconds}

-- The trade that the fields tell of: its numbers are theirs at the instrument's scales.
unfoldable pub Tells : (Text → Result AggressorSide) → SymbolSpec → Fields → TradePrint → Type 0
Tells aggressor spec f p =
    (ms : ℤ) × (word : Text) × (price : Text) × (size : Text) × (f.time_ms ≡ ok ms)
    × (f.side ≡ ok word)
    × (f.price ≡ ok price)
    × (f.size ≡ ok size)
    × (aggressor word ≡ ok p.aggressor)
    × (parse_scaled price spec.price_scale ≡ ok p.price)
    × (parse_scaled size spec.qty_scale ≡ ok p.qty)
    × (p.exchange_ts_ns ≡ nanoseconds ms)
    × (p.trade_id ≡ trade_id_of f.id)

-- Inversion of the chain, and the chain of parts that succeed.
chain_inv :
    {A : Type 0} (r : Result A) {B : Type 0} (next : A → Result B) (b : B)
    → (r >>= next) ≡ ok b
    → (a : A) × (r ≡ ok a) × (next a ≡ ok b)
chain_inv (ok a) next b h = (a, refl, h)
chain_inv (err e) next b h = ground (arith, h)

pub read_print-Tells :
    (aggressor : Text → Result AggressorSide) (spec : SymbolSpec) (f : Fields) (p : TradePrint)
    → read_print aggressor spec f ≡ ok p
    → Tells aggressor spec f p
unfolding read_print Tells
read_print-Tells aggressor spec f p h =
    let (ms, ht, h1) = chain_inv f.time_ms _ p h in
    let (word, hw, h2) = chain_inv f.side _ p h1 in
    let (side, hs, h3) = chain_inv (aggressor word) _ p h2 in
    let (price, hp, h4) = chain_inv f.price _ p h3 in
    let (size, hz, h5) = chain_inv f.size _ p h4 in
    let (x, hx, h6) = chain_inv (parse_scaled price spec.price_scale) _ p h5 in
    let (q, hq, h7) = chain_inv (parse_scaled size spec.qty_scale) _ p h6 in
    (
      ms,
      word,
      price,
      size,
      ht,
      hw,
      hp,
      hz,
      ground (arith, hs, h7),
      ground (arith, hx, h7),
      ground (arith, hq, h7),
      ground (arith, h7),
      ground (arith, h7),
    )

Tells-read_print :
    (aggressor : Text → Result AggressorSide) (spec : SymbolSpec) (f : Fields) (p : TradePrint)
    → Tells aggressor spec f p
    → read_print aggressor spec f ≡ ok p
unfolding read_print Tells
Tells-read_print aggressor spec f p (ms, word, price, size, ht, hw, hp, hz, hs, hx, hq, time, id) =
    ground (arith, ht, hw, hp, hz, hs, hx, hq, time, id)

module _ {A B : Type 0} (f : A → Result B) where
  collect-Pairwise :
      (xs : List A) (ys : List B) → collect f xs ≡ ok ys → Pairwise (λ x y. f x ≡ ok y) xs ys
  unfolding collect
  collect-Pairwise [] [] h = done
  collect-Pairwise [] (y ∷ ys) h = ground (arith, h)
  collect-Pairwise (x ∷ xs) ys h =
      let (y, hy, h1) = chain_inv (f x) _ ys h in
      let (rest, hr, h2) = chain_inv (collect f xs) _ ys h1 in
      let same : y ∷ rest ≡ ys = ground (arith, h2) in
      subst (Pairwise (λ x y. f x ≡ ok y) (x ∷ xs)) same (both hy (collect-Pairwise xs rest hr))

  Pairwise-collect :
      (xs : List A) (ys : List B) → Pairwise (λ x y. f x ≡ ok y) xs ys → collect f xs ≡ ok ys
  unfolding collect
  Pairwise-collect _ _ done = refl
  Pairwise-collect (x ∷ xs) (y ∷ ys) (both h hs) = ground (arith, h, Pairwise-collect xs ys hs)

pub Pairwise-map :
    {A B : Type 0} {P Q : A → B → Type 0}
    → ((a : A) (b : B) → P a b → Q a b)
    → {xs : List A} {ys : List B} → Pairwise P xs ys
    → Pairwise Q xs ys
Pairwise-map f done = done
Pairwise-map f (both p ps) = both (f _ _ p) (Pairwise-map f ps)

-- The data of a frame; a frame without an array of data has none.
unfoldable pub frame_data : (json : Json) → json.Value → List json.Value
frame_data json v = or_default [] (array_field json (codes "data") v)

of_data :
    {V : Type 0} (parse : V → Result TradePrint) (o : Option (List V))
    → elim o [ none ↦ ok [] | some trades ↦ collect parse trades ] ≡ collect parse (or_default [] o)
unfolding collect
of_data parse none = refl
of_data parse (some trades) = refl

pub bybit_data :
    (json : Json) (spec : SymbolSpec) (v : json.Value)
    → Bybit.parse_value json spec v
      ≡ collect (λ t. read_print Bybit.aggressor spec (Bybit.fields_of json t)) (frame_data json v)
unfolding Bybit.parse_value Bybit.parse_trade frame_data
bybit_data json spec v = of_data (Bybit.parse_trade json spec) (array_field json (codes "data") v)

pub bitget_data :
    (json : Json) (up : Text → Text) (spec : SymbolSpec) (v : json.Value)
    → Bitget.parse_value json up spec v
      ≡ collect
          (λ t. read_print Bitget.aggressor spec (Bitget.fields_of json up t))
          (frame_data json v)
unfolding Bitget.parse_value Bitget.parse_trade frame_data
bitget_data json up spec v =
    of_data (Bitget.parse_trade json up spec) (array_field json (codes "data") v)

pub accepts_iff :
    (json : Json) (spec : SymbolSpec) (aggressor : Text → Result AggressorSide)
    (fields : json.Value → Fields) (v : json.Value) (ps : List TradePrint)
    → (collect (λ t. read_print aggressor spec (fields t)) (frame_data json v) ≡ ok ps)
      ↔ Pairwise (λ t p. Tells aggressor spec (fields t) p) (frame_data json v) ps
accepts_iff json spec aggressor fields v ps =
    let parse : json.Value → Result TradePrint = λ t. read_print aggressor spec (fields t) in
    (
      λ h.
          Pairwise-map (λ t p. read_print-Tells aggressor spec (fields t) p)
            (collect-Pairwise parse (frame_data json v) ps h),
      λ h.
          Pairwise-collect parse (frame_data json v) ps
            (Pairwise-map (λ t p. Tells-read_print aggressor spec (fields t) p) h),
    )
