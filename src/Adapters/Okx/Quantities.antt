-- ===== src/Adapters/Okx/Quantities.antt =====
-- From contracts to amounts of the base currency: okx_trade.rs and scale.rs of crates/exchange-okx.
use native.Mathlib.Nat
use trading_terminal_cluster.Common.{
  ℕ, suc, ◌+◌, ◌*◌, ◌/◌, ◌%◌, ◌^◌, ◌<◌, ◌≤◌, ◌≡◌, sym, ap, ◌∙◌, some, none, Option, arith,
}
use trading_terminal_cluster.Common.Int.{ℤ, pos, ◌*ℤ◌}
use trading_terminal_cluster.Common.Machine.{max_i64}
use trading_terminal_cluster.Common.Division.{wrap_to}
use trading_terminal_cluster.Common.Text.{Text, codes, trim}
use trading_terminal_cluster.Common.Json.{Json, str_field}
use trading_terminal_cluster.Common.Parse.{parse_digits}
use trading_terminal_cluster.Common.Slices.{remove_char}
use trading_terminal_cluster.Core.{SymbolSpec, TradePrint, perp}
use trading_terminal_cluster.Scale.{ok, parse_scaled, split_parts}
use trading_terminal_cluster.Common.Eq.{nat_eq, list_eq}
use trading_terminal_cluster.Common.Map.{lookup-insert_self}
use trading_terminal_cluster.Scale.Value.{ten_pos}
use trading_terminal_cluster.Scale.Sound.{Scaled, parse_scaled-Scaled}
use trading_terminal_cluster.Adapters.Okx.{CtMap, set_ct, get_ct, decimals_of, ct_val_fraction}
use trading_terminal_cluster.Adapters.Okx.Contracts.{quotient_pos, ct_val_fraction_lem}
use trading_terminal_cluster.Adapters.{require}
use trading_terminal_cluster.Adapters.Prints.{Tells, read_print-Tells}
use trading_terminal_cluster.Adapters.Okx.Trades
use trading_terminal_cluster.Adapters.Okx.Trades.{to_base, contract_of, convert}

wrap_pos : (n : ℕ) → n ≤ max_i64 → wrap_to max_i64 (pos n) ≡ pos n
unfolding wrap_to
wrap_pos n h = ground arith

mul_pos : (a b : ℕ) → pos a *ℤ pos b ≡ pos (a * b)
unfolding ◌*ℤ◌
mul_pos a b = ground arith

to_base_pos :
    (raw n d : ℕ)
    → 0 < d
    → raw * n ≤ max_i64
    → to_base (pos raw) (pos n, pos d) ≡ some (pos (raw * n / d))
unfolding to_base
to_base_pos raw n d h k =
    ground (arith, mul_pos raw n, wrap_pos (raw * n) k, quotient_pos max_i64 (raw * n) d h k)

-- A number is `raw` times `v`, divided by ten to the places `k`, and rounded down.
abbrev pub Product : ℕ → ℕ → ℕ → ℕ → Type 0
Product raw v k q = (q * 10 ^ k ≤ raw * v) × (raw * v < suc q * 10 ^ k)

cancel_le : (x y d : ℕ) → 0 < d → x * d ≤ y * d → x ≤ y
cancel_le x y d h k = Nat.le_of_mul-le-mul_right k h

cancel_lt : (x y d : ℕ) → x * d < y * d → x < y
cancel_lt x y d k = Nat.lt_of_mul-lt-mul_right d k

-- The fraction in place of the number.
floor_fraction :
    (raw v p n d q r : ℕ)
    → 0 < d
    → 0 < p
    → n * p ≡ v * d
    → raw * n ≡ d * q + r
    → r < d
    → (q * p ≤ raw * v) × (raw * v < suc q * p)
floor_fraction raw v p n d q r hd hp e split small =
    let scaled : raw * v * d ≡ q * p * d + r * p =
      omega arith ∙ ap (λ t. raw * t) (sym e) ∙ omega arith ∙ ap (λ t. t * p) split ∙ omega arith in
    (
      cancel_le (q * p) (raw * v) d hd (omega arith),
      cancel_lt (raw * v) (suc q * p) d (omega (arith, Nat.mul-le-mul_right p small)),
    )

contract_of_set :
    (spec : SymbolSpec) (n d : ℤ) (m : CtMap)
    → spec.market_type ≡ perp
    → contract_of spec (set_ct spec.symbol n d m) ≡ (n, d)
unfolding contract_of set_ct get_ct
contract_of_set spec n d m h = ground (arith, h, lookup-insert_self spec.symbol (n, d) m)

require_ok : (key : Text) (o : Option Text) (a : Text) → require key o ≡ ok a → o ≡ some a
require_ok key none a h = ground (arith, h)
require_ok key (some b) a h = ground (arith, h)

-- The quantity of a trade that was read is its text's number, scaled.
read_trade-qty :
    (json : Json) (spec : SymbolSpec) (t : json.Value) (p : TradePrint)
    → Trades.read_trade json spec t ≡ ok p
    → (sz : Text) × (str_field json (codes "sz") t ≡ some sz)
      × (parse_scaled sz spec.qty_scale ≡ ok p.qty)
unfolding Trades.read_trade Trades.fields_of Tells
read_trade-qty json spec t p h =
    let (ms, word, price, size, _, _, _, found, _, _, parsed, _, _) =
      read_print-Tells Trades.aggressor spec (Trades.fields_of json t) p h in
    (size, require_ok (codes "sz") (str_field json (codes "sz") t) size found, parsed)

convert_pos :
    (p : TradePrint) (raw n d : ℕ)
    → p.qty ≡ pos raw
    → 0 < d
    → raw * n ≤ max_i64
    → convert (pos n, pos d) p ≡ some (record p { qty = pos (raw * n / d) })
unfolding convert
convert_pos p raw n d q h k = ground (arith, q, to_base_pos raw n d h k)

-- A trade of a swap whose contract value is registered as its fraction: where the digits of the value
-- are a number that fits an i64, at most 18 of them stand behind the point, the trade is read, and
-- its scaled contracts times the fraction's first part fit an i64, its quantity is the scaled contracts
-- times the contract value, rounded down. The scaled contracts are the number that the text `sz`
-- spells, at the scale of quantities, rounded down; all else is as it was read.
pub parse_trade-Product :
    (json : Json) (spec : SymbolSpec) (t : json.Value) (p : TradePrint) (m : CtMap) (ct_val : Text)
    (v n d raw : ℕ)
    → spec.market_type ≡ perp
    → parse_digits max_i64 (remove_char b'.' ct_val) ≡ some v
    → decimals_of ct_val ≤ 18
    → ct_val_fraction ct_val ≡ some (pos n, pos d)
    → Trades.read_trade json spec t ≡ ok p
    → p.qty ≡ pos raw
    → raw * n ≤ max_i64
    → (amount : ℕ) × (sz : Text) × (Trades.parse_trade json spec
          (contract_of spec (set_ct spec.symbol (pos n) (pos d) m))
          t
        ≡ some (ok (record p { qty = pos amount })))
      × Product raw v (decimals_of ct_val) amount
      × (str_field json (codes "sz") t ≡ some sz)
      × Scaled (split_parts (trim sz)).0 (split_parts (trim sz)).1 spec.qty_scale (pos raw)
unfolding Trades.parse_trade
parse_trade-Product json spec t p m ct_val v n d raw swap digits places fraction read q fits =
    let (n', d', e, crossed, d_pos, lowest) = ct_val_fraction_lem ct_val v digits places in
    let same : (n ≡ n') × (d ≡ d') = (ground (arith, e, fraction), ground (arith, e, fraction)) in
    let positive : 0 < d = omega (arith, same.1, d_pos) in
    let whole : n * 10 ^ decimals_of ct_val ≡ v * d =
      ap (λ x. x * 10 ^ decimals_of ct_val) same.0 ∙ crossed ∙ ap (λ x. v * x) (sym same.1) in
    let (sz, found, parsed) = read_trade-qty json spec t p read in
    (
      raw * n / d,
      sz,
      ground (
        arith,
        contract_of_set spec (pos n) (pos d) m swap,
        read,
        convert_pos p raw n d q positive fits,
      ),
      floor_fraction raw v (10 ^ decimals_of ct_val) n d (raw * n / d) (raw * n % d) positive
          (ten_pos (decimals_of ct_val)) whole (sym (Nat.div-add-mod (raw * n) d))
          (Nat.mod-lt (raw * n) positive),
      found,
      parse_scaled-Scaled sz spec.qty_scale (pos raw) (parsed ∙ ap ok q),
    )
