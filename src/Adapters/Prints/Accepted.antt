-- ===== src/Adapters/Prints/Accepted.antt =====
-- What the trades of crates/exchange-bybit and crates/exchange-bitget are, field by field, and that the
-- parsers accept these and no others.
use trading_terminal_cluster.Common.{List, map, ◌≡◌, ◌↔◌, refl, sym, ◌∙◌, Option, none, some, arith}
use mathlib.Core.Path.{subst}
use trading_terminal_cluster.Common.Int.{ℤ, pos}
use trading_terminal_cluster.Common.Machine.{saturating_mul, max_i64, max_u64}
use trading_terminal_cluster.Common.Parse.{parse_signed_to, parse_unsigned_to}
use trading_terminal_cluster.Common.Tests.{if◌then◌else◌}
use trading_terminal_cluster.Common.Eq.{◌==◌, nat_eq, list_eq, list_beq_iff}
use trading_terminal_cluster.Common.Text.{Text, codes}
use trading_terminal_cluster.Common.Pairwise.{Pairwise}
use trading_terminal_cluster.Common.Json.{Json, and_then, or_else, or_default, str_field, i64_field}
use trading_terminal_cluster.Core.{AggressorSide, bid, ask, SymbolSpec, TradePrint}
use trading_terminal_cluster.Scale.{Result, ok, err, unknown_side, parse_scaled}
use trading_terminal_cluster.Adapters.Bybit
use trading_terminal_cluster.Adapters.Bitget
use trading_terminal_cluster.Adapters.{
  lower, eq_ignore_ascii_case, require, trade_id_of, nanoseconds, Fields,
}
use trading_terminal_cluster.Adapters.Prints.{
  Tells, frame_data, bybit_data, bitget_data, accepts_iff, Pairwise-map,
}

-- A trade whose fields are texts: its instant is the milliseconds in nanoseconds, its price is scaled
-- by the price scale and its quantity by the quantity scale, and its id is 0 unless the text is a u64.
pub record IsTrade (spec : SymbolSpec) (Time : ℤ → Type 0) (Word : Text → AggressorSide → Type 0)
    (side price size id : Option Text) (p : TradePrint) : Type 0 where
  pub instant : (ms : ℤ) × Time ms × (p.exchange_ts_ns ≡ saturating_mul ms (pos 1_000_000))
  pub direction : (w : Text) × (side ≡ some w) × Word w p.aggressor
  pub scaled_price : (s : Text) × (price ≡ some s) × (parse_scaled s spec.price_scale ≡ ok p.price)
  pub scaled_size : (s : Text) × (size ≡ some s) × (parse_scaled s spec.qty_scale ≡ ok p.qty)
  pub identity : p.trade_id ≡ or_default 0 (and_then id (parse_unsigned_to max_u64))

-- Bybit says "Buy" or "Sell"; Bitget says "buy" or "sell", with any letters in upper case.
abbrev pub BybitWord : Text → AggressorSide → Type 0
BybitWord w bid = w ≡ codes "Buy"
BybitWord w ask = w ≡ codes "Sell"

abbrev pub BitgetWord : Text → AggressorSide → Type 0
BitgetWord w bid = map lower w ≡ codes "buy"
BitgetWord w ask = map lower w ≡ codes "sell"

abbrev pub BybitTrade : (json : Json) → SymbolSpec → json.Value → TradePrint → Type 0
BybitTrade json spec t p =
    IsTrade spec (λ ms. i64_field json (codes "T") t ≡ some ms) BybitWord
      (str_field json (codes "S") t) (str_field json (codes "p") t) (str_field json (codes "v") t)
      (str_field json (codes "i") t) p

-- The milliseconds are a text of an i64, or a number.
abbrev pub BitgetTrade : (json : Json) → SymbolSpec → json.Value → TradePrint → Type 0
BitgetTrade json spec t p =
    IsTrade spec
      (λ ms.
        and_then (json.get (codes "ts") t)
          (λ v. or_else (and_then (json.as_str v) (parse_signed_to max_i64)) (json.as_i64 v))
        ≡ some ms)
      BitgetWord (str_field json (codes "side") t) (str_field json (codes "price") t)
      (str_field json (codes "size") t) (str_field json (codes "tradeId") t) p

bybit_word : (w : Text) (side : AggressorSide) → (Bybit.aggressor w ≡ ok side) ↔ BybitWord w side
unfolding Bybit.aggressor
bybit_word w bid = (
  λ h. (list_beq_iff w (codes "Buy")).0 (ground (arith, h)),
  λ e. subst (λ w. Bybit.aggressor w ≡ ok bid) (sym e) refl,
)
bybit_word w ask = (
  λ h. (list_beq_iff w (codes "Sell")).0 (ground (arith, h)),
  λ e. subst (λ w. Bybit.aggressor w ≡ ok ask) (sym e) refl,
)

-- The chain of tests on the word in lower case.
unfoldable bitget_side : Text → Result AggressorSide
bitget_side w =
    if w == codes "buy" then ok bid else if w == codes "sell" then ok ask else err unknown_side

bitget_word : (w : Text) (side : AggressorSide) → (Bitget.aggressor w ≡ ok side) ↔ BitgetWord w side
unfolding Bitget.aggressor eq_ignore_ascii_case bitget_side
bitget_word w bid = (
  λ h. (list_beq_iff (map lower w) (codes "buy")).0 (ground (arith, h)),
  λ e. subst (λ m. bitget_side m ≡ ok bid) (sym e) refl,
)
bitget_word w ask = (
  λ h. (list_beq_iff (map lower w) (codes "sell")).0 (ground (arith, h)),
  λ e. subst (λ m. bitget_side m ≡ ok ask) (sym e) refl,
)

require_iff :
    {A : Type 0} (key : Text) (o : Option A) (a : A) → (require key o ≡ ok a) ↔ (o ≡ some a)
require_iff key none a = ground arith
require_iff key (some b) a = ground arith

trade_id_of_lem :
    (id : Option Text) → trade_id_of id ≡ or_default 0 (and_then id (parse_unsigned_to max_u64))
unfolding trade_id_of
trade_id_of_lem none = refl
trade_id_of_lem (some s) = refl

module _ (aggressor : Text → Result AggressorSide) (Word : Text → AggressorSide → Type 0)
    (word_iff : (w : Text) (side : AggressorSide) → (aggressor w ≡ ok side) ↔ Word w side)
    (spec : SymbolSpec) (ts_key side_key price_key size_key : Text) (time : Option ℤ)
    (side price size id : Option Text) (p : TradePrint) where
  abbrev fields : Fields
  fields = record {
    time_ms = require ts_key time;
    side = require side_key side;
    price = require price_key price;
    size = require size_key size;
    id = id;
  }

  Tells-IsTrade :
      Tells aggressor spec fields p ↔ IsTrade spec (λ ms. time ≡ some ms) Word side price size id p
  unfolding Tells nanoseconds
  Tells-IsTrade = (
    λ (ms, word, pr, sz, ht, hw, hp, hz, hs, hx, hq, ts, tid). record {
      instant = (ms, (require_iff ts_key time ms).0 ht, ts);
      direction = (word, (require_iff side_key side word).0 hw, (word_iff word p.aggressor).0 hs);
      scaled_price = (pr, (require_iff price_key price pr).0 hp, hx);
      scaled_size = (sz, (require_iff size_key size sz).0 hz, hq);
      identity = tid ∙ trade_id_of_lem id;
    },
    λ h.
        let (ms, ht, ts) = h.instant in
        let (word, hw, hs) = h.direction in
        let (pr, hp, hx) = h.scaled_price in
        let (sz, hz, hq) = h.scaled_size in
        (
          ms,
          word,
          pr,
          sz,
          (require_iff ts_key time ms).1 ht,
          (require_iff side_key side word).1 hw,
          (require_iff price_key price pr).1 hp,
          (require_iff size_key size sz).1 hz,
          (word_iff word p.aggressor).1 hs,
          hx,
          hq,
          ts,
          h.identity ∙ sym (trade_id_of_lem id),
        ),
  )

module _ (json : Json) (spec : SymbolSpec) (t : json.Value) (p : TradePrint) where
  bybit_iff : Tells Bybit.aggressor spec (Bybit.fields_of json t) p ↔ BybitTrade json spec t p
  unfolding Bybit.fields_of
  bybit_iff =
      Tells-IsTrade Bybit.aggressor BybitWord bybit_word spec (codes "T") (codes "S") (codes "p")
        (codes "v") (i64_field json (codes "T") t) (str_field json (codes "S") t)
        (str_field json (codes "p") t) (str_field json (codes "v") t) (str_field json (codes "i") t)
        p

  bitget_iff :
      (to_uppercase : Text → Text)
      → Tells Bitget.aggressor spec (Bitget.fields_of json to_uppercase t) p
        ↔ BitgetTrade json spec t p
  unfolding Bitget.fields_of Bitget.time_of
  bitget_iff to_uppercase =
      Tells-IsTrade Bitget.aggressor BitgetWord bitget_word spec (codes "ts") (codes "side")
        (codes "price") (codes "size") (Bitget.time_of json to_uppercase t)
        (str_field json (codes "side") t) (str_field json (codes "price") t)
        (str_field json (codes "size") t) (str_field json (codes "tradeId") t) p

Pairwise-both :
    {A B : Type 0} {P Q : A → B → Type 0} (xs : List A) (ys : List B)
    → ((a : A) (b : B) → P a b ↔ Q a b)
    → Pairwise P xs ys ↔ Pairwise Q xs ys
Pairwise-both xs ys h = (Pairwise-map λ a b. (h a b).0, Pairwise-map λ a b. (h a b).1)

-- The parsers of Bybit's and Bitget's trades accept a frame exactly when each of its trades has its
-- fields, a known word for its side and numbers that parse; they return one trade for each, in order,
-- with the side, the scaled price, the scaled quantity, the instant and the id of these fields. A frame
-- without data has no trades.
pub parse_value_iff :
    (json : Json) (to_uppercase : Text → Text) (spec : SymbolSpec) (v : json.Value)
    (ps : List TradePrint)
    → ((Bybit.parse_value json spec v ≡ ok ps)
        ↔ Pairwise (λ t p. BybitTrade json spec t p) (frame_data json v) ps)
      × ((Bitget.parse_value json to_uppercase spec v ≡ ok ps)
          ↔ Pairwise (λ t p. BitgetTrade json spec t p) (frame_data json v) ps)
parse_value_iff json to_uppercase spec v ps =
    let bybit = accepts_iff json spec Bybit.aggressor (Bybit.fields_of json) v ps in
    let bitget = accepts_iff json spec Bitget.aggressor (Bitget.fields_of json to_uppercase) v ps in
    let bybits = Pairwise-both (frame_data json v) ps (bybit_iff json spec) in
    let bitgets =
      Pairwise-both (frame_data json v) ps (λ t p. bitget_iff json spec t p to_uppercase) in
    (
      rw (bybit_data json spec v) (λ h. bybits.0 (bybit.0 h), λ h. bybit.1 (bybits.1 h)),
      rw (bitget_data json to_uppercase spec v)
          (λ h. bitgets.0 (bitget.0 h), λ h. bitget.1 (bitgets.1 h)),
    )
