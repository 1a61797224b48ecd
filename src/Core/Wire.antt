-- ===== src/Core/Wire.antt =====
-- The wire spelling of exchanges and markets: `wire_id` of crates/exchange-core/src/types.rs and the
-- parsers of crates/cluster-api/src/stream_server.rs, with the equality of stream keys.
use mathlib.Core.Logic.{◌↔◌}
use trading_terminal_cluster.Common.{
  List, [], ◌∷◌, Option, none, some, inl, inr, Bool, true, false, ◌&&◌, ◌≡◌, refl, ap, arith,
}
use trading_terminal_cluster.Common.Lists.{All}
use trading_terminal_cluster.Common.Eq.{Eq, ◌==◌, nat_eq, list_eq, list_beq, list_beq_iff}
use trading_terminal_cluster.Common.Tests.{if◌then◌else◌, nat_beq, nat_beq_iff, Bool-cases}
use trading_terminal_cluster.Common.Text.{Text, codes}
use trading_terminal_cluster.Core.{
  Exchange, binance, binance_f, bybit, bybit_f, bitget, bitget_f, okx, okx_f, hyperliquid,
  hyperliquid_f, kucoin, kucoin_f, gate, gate_f, aster, aster_f, mexc, mexc_f, bingx, bingx_f,
  MarketType, spot, perp, Quote, usdt, usdc, SymbolKey, StreamKey, wire_id,
}

-- The arms of a `match` on a text, tried in order.
abbrev pub match_text {ℓ} : {A : Type ℓ} → Text → List (Text × A) → Option A
match_text s [] = none
match_text s ((t, a) ∷ arms) = if t == s then some a else match_text s arms

-- `parse_exchange`
unfoldable pub exchange_arms : List (Text × Exchange)
exchange_arms =
    (codes "BINANCE", binance)
    ∷ (codes "BINANCEF", binance_f)
    ∷ (codes "BYBIT", bybit)
    ∷ (codes "BYBITF", bybit_f)
    ∷ (codes "BITGET", bitget)
    ∷ (codes "BITGETF", bitget_f)
    ∷ (codes "OKX", okx)
    ∷ (codes "OKXF", okx_f)
    ∷ (codes "HYPERLIQUID", hyperliquid)
    ∷ (codes "HYPERLIQUIDF", hyperliquid_f)
    ∷ (codes "KUCOIN", kucoin)
    ∷ (codes "KUCOINF", kucoin_f)
    ∷ (codes "GATE", gate)
    ∷ (codes "GATEF", gate_f)
    ∷ (codes "ASTER", aster)
    ∷ (codes "ASTERF", aster_f)
    ∷ (codes "MEXC", mexc)
    ∷ (codes "MEXCF", mexc_f)
    ∷ (codes "BINGX", bingx)
    ∷ (codes "BINGXF", bingx_f)
    ∷ []

unfoldable pub parse_exchange : Text → Option Exchange
unfolding exchange_arms
parse_exchange s = match_text s exchange_arms

unfoldable pub market_arms : List (Text × MarketType)
market_arms = (codes "SPOT", spot) ∷ (codes "PERP", perp) ∷ []

unfoldable pub parse_market_type : Text → Option MarketType
unfolding market_arms
parse_market_type s = match_text s market_arms

unfoldable pub market_type_wire : MarketType → Text
market_type_wire spot = codes "SPOT"
market_type_wire perp = codes "PERP"

-- A `match` whose arms spell a function finds only what it spells.
match_text_sound {ℓ} :
    {A : Type ℓ} (spell : A → Text) (s : Text) (arms : List (Text × A)) {a : A}
    → All (λ p. spell p.1 ≡ p.0) arms
    → match_text s arms ≡ some a
    → spell a ≡ s
match_text_sound spell s [] h e = absurd (ground arith)
match_text_sound spell s ((t, b) ∷ arms) {a} (h, hs) e = elim (Bool-cases (t == s)) [
  | inl hit ↦ cc (h, (list_beq_iff t s).0 hit, rw hit at e)
  | inr miss ↦ match_text_sound spell s arms hs (rw miss at e)
]

arms_spelled : All (λ p. wire_id p.1 ≡ p.0) exchange_arms
unfolding exchange_arms wire_id
arms_spelled = (
  refl,
  (
    refl,
    (
      refl,
      (
        refl,
        (
          refl,
          (
            refl,
            (
              refl,
              (
                refl,
                (
                  refl,
                  (
                    refl,
                    (
                      refl,
                      (refl, (refl, (refl, (refl, (refl, (refl, (refl, (refl, (refl, tt))))))))),
                    ),
                  ),
                ),
              ),
            ),
          ),
        ),
      ),
    ),
  ),
)

parse-wire_id : (x : Exchange) → parse_exchange (wire_id x) ≡ some x
unfolding parse_exchange wire_id
parse-wire_id binance = refl
parse-wire_id _ = refl

parse_sound : (s : Text) (x : Exchange) → parse_exchange s ≡ some x → wire_id x ≡ s
unfolding parse_exchange
parse_sound s x e = match_text_sound wire_id s exchange_arms arms_spelled e

-- A text is parsed as an exchange exactly when it is that exchange's wire id.
pub parse_exchange_iff : (s : Text) (x : Exchange) → (parse_exchange s ≡ some x) ↔ (wire_id x ≡ s)
parse_exchange_iff s x = (parse_sound s x, λ e. rw (← e) (parse-wire_id x))

pub wire_id-injective : (x y : Exchange) → wire_id x ≡ wire_id y → x ≡ y
wire_id-injective x y e = cc (parse-wire_id x, parse-wire_id y, ap parse_exchange e)

markets_spelled : All (λ p. market_type_wire p.1 ≡ p.0) market_arms
unfolding market_arms market_type_wire
markets_spelled = (refl, (refl, tt))

parse-market_type_wire : (m : MarketType) → parse_market_type (market_type_wire m) ≡ some m
unfolding parse_market_type market_type_wire
parse-market_type_wire spot = refl
parse-market_type_wire perp = refl

pub parse_market_type_iff :
    (s : Text) (m : MarketType) → (parse_market_type s ≡ some m) ↔ (market_type_wire m ≡ s)
unfolding parse_market_type
parse_market_type_iff s m = (
  match_text_sound market_type_wire s market_arms markets_spelled,
  λ e. rw (← e) (parse-market_type_wire m),
)

-- The derived equality of exchanges, markets and keys: a key is compared field by field.
abbrev pub exchange_beq : Exchange → Exchange → Bool
exchange_beq x y = list_beq (wire_id x) (wire_id y)

abbrev pub market_beq : MarketType → MarketType → Bool
market_beq spot spot = true
market_beq perp perp = true
market_beq _ _ = false

abbrev pub symbol_key_beq : SymbolKey → SymbolKey → Bool
symbol_key_beq a b =
    exchange_beq a.exchange b.exchange
    && market_beq a.market_type b.market_type
    && list_beq a.symbol b.symbol

pub exchange_beq_iff : (x y : Exchange) → (exchange_beq x y ≡ true) ↔ (x ≡ y)
exchange_beq_iff x y = (
  λ h. wire_id-injective x y ((list_beq_iff (wire_id x) (wire_id y)).0 h),
  λ e. (list_beq_iff (wire_id x) (wire_id y)).1 (ap wire_id e),
)

pub market_beq_iff : (x y : MarketType) → (market_beq x y ≡ true) ↔ (x ≡ y)
market_beq_iff x y = ground arith

pub symbol_key_beq_iff : (a b : SymbolKey) → (symbol_key_beq a b ≡ true) ↔ (a ≡ b)
symbol_key_beq_iff a b = ground (
  arith,
  exchange_beq_iff a.exchange b.exchange,
  market_beq_iff a.market_type b.market_type,
  list_beq_iff a.symbol b.symbol,
)

instance abbrev pub symbol_key_eq : Eq SymbolKey
symbol_key_eq = record { same = symbol_key_beq; same_iff = symbol_key_beq_iff }

abbrev pub stream_key_beq : StreamKey → StreamKey → Bool
stream_key_beq a b =
    symbol_key_beq a.symbol b.symbol && nat_beq a.interval_seconds b.interval_seconds

pub stream_key_beq_iff : (a b : StreamKey) → (stream_key_beq a b ≡ true) ↔ (a ≡ b)
stream_key_beq_iff a b =
    ground (
      arith,
      symbol_key_beq_iff a.symbol b.symbol,
      nat_beq_iff a.interval_seconds b.interval_seconds,
    )

instance abbrev pub stream_key_eq : Eq StreamKey
stream_key_eq = record { same = stream_key_beq; same_iff = stream_key_beq_iff }

abbrev pub quote_beq : Quote → Quote → Bool
quote_beq usdt usdt = true
quote_beq usdc usdc = true
quote_beq _ _ = false

pub quote_beq_iff : (x y : Quote) → (quote_beq x y ≡ true) ↔ (x ≡ y)
quote_beq_iff x y = ground arith

instance abbrev pub quote_eq : Eq Quote
quote_eq = record { same = quote_beq; same_iff = quote_beq_iff }
