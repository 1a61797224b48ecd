-- ===== src/Adapters.antt =====
-- What the exchange adapters' parsers of trades and of instruments share: the early returns, the
-- loops and the tests on texts.
pub mod Ticks
pub mod Prints
pub mod Names
pub mod Bybit
pub mod Okx
pub mod Bitget
pub mod Hyperliquid
pub mod Bingx
pub mod Kucoin
use trading_terminal_cluster.Common.{
  ℕ, ◌+◌, ◌*◌, List, [], ◌∷◌, Bool, true, false, ◌&&◌, ◌||◌, Option, none, some, map,
}
use trading_terminal_cluster.Common.Tests.{if◌then◌else◌, leb}
use trading_terminal_cluster.Common.Int.{ℤ, pos, leb_ℤ}
use trading_terminal_cluster.Common.Machine.{max_u64, saturating_mul}
use trading_terminal_cluster.Common.Eq.{◌==◌, nat_eq, list_eq}
use trading_terminal_cluster.Common.Map.{insert}
use trading_terminal_cluster.Common.Text.{Text, codes}
use trading_terminal_cluster.Common.Json.{or_default}
use trading_terminal_cluster.Common.Parse.{parse_unsigned_to}
use trading_terminal_cluster.Core.{
  AggressorSide, Exchange, MarketType, SymbolSpec, Quote, usdt, usdc, TradePrint,
}
use trading_terminal_cluster.Scale.{
  ParseError, missing, no_usable_deals, Result, ok, err, ◌>>=◌, parse_scaled,
  count_decimals_trimmed,
}

-- `ok_or_else` with the message that a field is missing.
abbrev pub require {ℓ} : {A : Type ℓ} → Text → Option A → Result A
require key none = err (missing key)
require key (some a) = ok a

-- A loop that pushes what each turn returns, and returns its first error.
unfoldable pub collect {ℓ κ} : {A : Type ℓ} {B : Type κ} → (A → Result B) → List A → Result (List B)
collect f [] = ok []
collect f (a ∷ rest_of) = let rest = collect f rest_of in f a >>= λ b. rest >>= λ bs. ok (b ∷ bs)

abbrev pub push_some {ℓ} : {B : Type ℓ} → Option B → List B → List B
push_some none bs = bs
push_some (some b) bs = b ∷ bs

-- The same, where a turn may `continue` without a result.
unfoldable pub collect_some {ℓ κ} :
    {A : Type ℓ} {B : Type κ} → (A → Result (Option B)) → List A → Result (List B)
collect_some f [] = ok []
collect_some f (a ∷ rest_of) =
    let rest = collect_some f rest_of in f a >>= λ b. rest >>= λ bs. ok (push_some b bs)

-- The same, where a turn has no errors.
unfoldable pub filter_map {ℓ κ} : {A : Type ℓ} {B : Type κ} → (A → Option B) → List A → List B
filter_map f [] = []
filter_map f (a ∷ rest_of) = push_some (f a) (filter_map f rest_of)

abbrev lower : ℕ → ℕ
lower c = if leb b'A' c && leb c b'Z' then c + 32 else c

unfoldable pub eq_ignore_ascii_case : Text → Text → Bool
eq_ignore_ascii_case s t = map lower s == map lower t

-- `get(key).and_then(|x| x.as_str()).and_then(|s| s.parse().ok()).unwrap_or(0)` at u64.
unfoldable pub trade_id_of : Option Text → ℕ
unfolding parse_unsigned_to
trade_id_of none = 0
trade_id_of (some s) = or_default 0 (parse_unsigned_to max_u64 s)

-- The exchange's milliseconds as nanoseconds.
unfoldable pub nanoseconds : ℤ → ℤ
nanoseconds ms = saturating_mul ms (pos 1_000_000)

-- `quote_of`
unfoldable pub quote_of : Text → Option Quote
quote_of s = if s == codes "USDT" then some usdt else if s == codes "USDC" then some usdc else none

-- The entries into a map, one after another.
unfoldable pub insert_all_into : {V : Type 0} → List (Text × V) → List (Text × V) → List (Text × V)
insert_all_into m [] = m
insert_all_into m ((k, v) ∷ kvs) = insert_all_into (insert k v m) kvs

unfoldable pub insert_all : {V : Type 0} → List (Text × V) → List (Text × V)
unfolding insert_all_into
insert_all kvs = insert_all_into [] kvs

-- The fields of a trade, as far as they are there.
pub record Fields : Type 0 where
  pub time_ms : Result ℤ
  pub side : Result Text
  pub price : Result Text
  pub size : Result Text
  pub id : Option Text

-- A trade from its fields, read in this order; the words for its two sides differ.
unfoldable pub read_print : (Text → Result AggressorSide) → SymbolSpec → Fields → Result TradePrint
unfolding trade_id_of nanoseconds
read_print aggressor spec f = do
  ts_ms ← f.time_ms
  side_str ← f.side
  side ← aggressor side_str
  price_str ← f.price
  size_str ← f.size
  price ← parse_scaled price_str spec.price_scale
  qty ← parse_scaled size_str spec.qty_scale
  ok (record {
    exchange_ts_ns = nanoseconds ts_ms;
    aggressor = side;
    price = price;
    qty = qty;
    trade_id = trade_id_of f.id;
  })

-- The scales, the tick and the step that two texts give; nothing where the loop over the
-- instruments goes on to the next one.
unfoldable pub scaled_sizes : Text → Text → Option (ℕ × ℕ × ℤ × ℤ)
scaled_sizes tick_str step_str =
    let price_scale = count_decimals_trimmed tick_str in
    let qty_scale = count_decimals_trimmed step_str in
    elim (parse_scaled tick_str price_scale) [
      | err _ ↦ none
      | ok tick_size ↦ elim (parse_scaled step_str qty_scale) [
        | err _ ↦ none
        | ok step_size ↦
            if leb_ℤ tick_size (pos 0) || leb_ℤ step_size (pos 0)
            then none
            else some (price_scale, qty_scale, tick_size, step_size)
      ]
    ]

-- `ok()`
abbrev pub ok_or_none {ℓ} : {A : Type ℓ} → Result A → Option A
ok_or_none (ok a) = some a
ok_or_none (err _) = none

-- `unwrap_or(1).max(1)`
unfoldable pub at_least_one : Option ℤ → ℤ
at_least_one none = pos 1
at_least_one (some z) = if leb_ℤ z (pos 1) then pos 1 else z

-- Deals that were all left out are an error.
unfoldable pub usable {ℓ} : {V : Type ℓ} → List V → List TradePrint → Result (List TradePrint)
usable (_ ∷ _) [] = err no_usable_deals
usable _ ps = ok ps

-- `SymbolSpec { exchange, market_type, quote, symbol, .. }`
unfoldable pub make_spec : Exchange × MarketType → Quote → Text → ℕ × ℕ × ℤ × ℤ → SymbolSpec
make_spec (exchange, market_type) quote symbol (price_scale, qty_scale, tick_size, step_size) =
    record {
      exchange = exchange;
      market_type = market_type;
      quote = quote;
      symbol = symbol;
      price_scale = price_scale;
      qty_scale = qty_scale;
      tick_size = tick_size;
      step_size = step_size;
    }

-- The instrument of a turn that finds a symbol, a quote and sizes; otherwise the loop goes on.
unfoldable pub spec_from :
    Exchange × MarketType → Option Text → Option Quote → Option (ℕ × ℕ × ℤ × ℤ) → Option SymbolSpec
unfolding make_spec
spec_from market (some symbol) (some quote) (some found) =
    some (make_spec market quote symbol found)
spec_from market _ _ _ = none
