-- ===== src/Adapters/Okx/Instruments.antt =====
-- The parsers of crates/exchange-okx/src/instruments_info.rs.
use trading_terminal_cluster.Common.{List, [], ◌∷◌, Bool, false, not, ◌||◌, Option, none, some}
use trading_terminal_cluster.Common.Tests.{if◌then◌else◌}
use trading_terminal_cluster.Common.Int.{ℤ}
use trading_terminal_cluster.Common.Eq.{◌==◌, nat_eq, list_eq, option_eq}
use trading_terminal_cluster.Common.Text.{Text, codes, split_once}
use trading_terminal_cluster.Common.Json.{Json, and_then, or_default, str_field, array_field}
use trading_terminal_cluster.Core.{Exchange, okx, okx_f, MarketType, spot, perp, Quote, SymbolSpec}
use trading_terminal_cluster.Scale.{Result, ok, err, ◌>>=◌, is_empty, bad_document, bad_code}
use trading_terminal_cluster.Adapters
use trading_terminal_cluster.Adapters.{make_spec, require, scaled_sizes}
use trading_terminal_cluster.Adapters.Okx.{
  CtMap, set_ct, normalize_inst_id, multiply_decimal_strs, ct_val_fraction,
}

pub data OkxCategory : Type 0 where
  swap spot_pairs : OkxCategory

unfoldable pub market_of : OkxCategory → Exchange × MarketType
market_of swap = (okx_f, perp)
market_of spot_pairs = (okx, spot)

-- The first segment of a text that is split at dashes.
unfoldable pub segment : Text → Text
unfolding split_once
segment s = elim (split_once b'-' s) [ none ↦ s | some (first, _) ↦ first ]

unfoldable pub quote_of : Text → Option Quote
unfolding segment Adapters.quote_of split_once
quote_of inst_id =
    and_then (split_once b'-' inst_id) (λ (_, rest). Adapters.quote_of (segment rest))

-- The lot in the base currency; none is a panic.
unfoldable pub effective_lot : OkxCategory → Text → Text → Option Text
unfolding multiply_decimal_strs
effective_lot swap lot_str ct_val_str = multiply_decimal_strs lot_str ct_val_str
effective_lot spot_pairs lot_str ct_val_str = some lot_str

-- What a turn of the loop does: it goes on, panics, or pushes an instrument and sets its contract
-- value, if it has one.
pub data Turn : Type 0 where
  skipped panicked : Turn
  pushed : SymbolSpec → Option (ℤ × ℤ) → Turn

unfoldable pub register : OkxCategory → Text → SymbolSpec → Turn
unfolding ct_val_fraction
register spot_pairs ct_val_str spec = pushed spec none
register swap ct_val_str spec = elim (ct_val_fraction ct_val_str) [
  | none ↦ panicked
  | some ct ↦ pushed spec (some ct)
]

unfoldable pub after_push : SymbolSpec → Option (ℤ × ℤ) → CtMap → CtMap
unfolding set_ct
after_push spec none m = m
after_push spec (some (n, d)) m = set_ct spec.symbol n d m

unfoldable pub cons_spec :
    SymbolSpec → Option (List SymbolSpec × CtMap) → Option (List SymbolSpec × CtMap)
cons_spec spec none = none
cons_spec spec (some (specs, m)) = some (spec ∷ specs, m)

-- The loop over a list: its instruments and the contract values after it; none is a panic.
unfoldable pub turns_of {ℓ} :
    {A : Type ℓ} → (A → Turn) → List A → CtMap → Option (List SymbolSpec × CtMap)
unfolding after_push cons_spec
turns_of turn [] m = some ([], m)
turns_of turn (a ∷ list) m = elim (turn a) [
  | panicked ↦ none
  | skipped ↦ turns_of turn list m
  | pushed spec ct ↦ cons_spec spec (turns_of turn list (after_push spec ct m))
]

module _ (json : Json) (to_uppercase : Text → Text) where
  open json use {Value, from_str, get, as_str}

  unfoldable pub is_inverse : OkxCategory → Value → Bool
  unfolding str_field
  is_inverse swap s = str_field json (codes "ctType") s == some (codes "inverse")
  is_inverse spot_pairs s = false

  -- A live instrument of the category with a quote; its name and its quote.
  unfoldable pub wanted : OkxCategory → Value → Option (Text × Quote)
  unfolding str_field quote_of is_inverse
  wanted category s =
      if not (str_field json (codes "state") s == some (codes "live"))
      then none
      else and_then (str_field json (codes "instId") s) (λ inst_id.
        if is_inverse category s
        then none
        else and_then (quote_of inst_id) (λ quote. some (inst_id, quote)))

  unfoldable pub with_sizes : OkxCategory → Text → Quote → Text → Text → Text → Turn
  unfolding scaled_sizes register market_of normalize_inst_id make_spec
  with_sizes category inst_id quote tick_str lot ct_val_str = elim (scaled_sizes tick_str lot) [
    | none ↦ skipped
    | some found ↦
        register category ct_val_str
          (make_spec (market_of category) quote (normalize_inst_id to_uppercase inst_id) found)
  ]

  unfoldable pub turn : OkxCategory → Value → Turn
  unfolding wanted str_field effective_lot with_sizes
  turn category s =
      let tick_str = or_default [] (str_field json (codes "tickSz") s) in
      let lot_str = or_default [] (str_field json (codes "lotSz") s) in
      let ct_val_str = or_default (codes "1") (str_field json (codes "ctVal") s) in
      elim (wanted category s) [
        | none ↦ skipped
        | some (inst_id, quote) ↦
            if is_empty tick_str || is_empty lot_str
            then skipped
            else (elim (effective_lot category lot_str ct_val_str) [
              | none ↦ panicked
              | some lot ↦ with_sizes category inst_id quote tick_str lot ct_val_str
            ])
      ]

  unfoldable pub turns : OkxCategory → List Value → CtMap → Option (List SymbolSpec × CtMap)
  unfolding turn turns_of
  turns category list m = turns_of (turn category) list m

  unfoldable pub data_list : Text → Result (List Value)
  unfolding str_field array_field
  data_list text = elim (from_str text) [
    | none ↦ err bad_document
    | some v ↦
        if str_field json (codes "code") v == some (codes "0")
        then require (codes "data") (array_field json (codes "data") v)
        else err bad_code
  ]

  unfoldable pub parse_instruments :
      OkxCategory → Text → CtMap → Option (Result (List SymbolSpec × CtMap))
  unfolding data_list turns
  parse_instruments category text m = elim (data_list text) [
    | err e ↦ some (err e)
    | ok list ↦ and_then (turns category list m) (λ out. some (ok out))
  ]

  -- The volumes by symbol; an f64, its product and its zero are parameters.
  module _ {V : Type 0} (parse_f64 : Text → Option V) (times : V → V → V) (zero_volume : V) where
    unfoldable pub f64_field : Text → Value → V
    unfolding str_field
    f64_field key entry = or_default zero_volume (and_then (str_field json key entry) parse_f64)

    unfoldable pub notional : OkxCategory → Value → V
    unfolding f64_field
    notional swap entry =
        times (f64_field (codes "volCcy24h") entry) (f64_field (codes "last") entry)
    notional spot_pairs entry = f64_field (codes "volCcy24h") entry

    unfoldable pub volume : OkxCategory → Value → Option (Text × V)
    unfolding str_field quote_of notional normalize_inst_id
    volume category entry = and_then (str_field json (codes "instId") entry) (λ inst_id.
        and_then (quote_of inst_id)
          (λ _. some (normalize_inst_id to_uppercase inst_id, notional category entry)))

    unfoldable pub parse_24h_volumes : OkxCategory → Text → Result (List (Text × V))
    unfolding data_list volume Adapters.filter_map Adapters.insert_all
    parse_24h_volumes category text = do
      list ← data_list text
      ok (Adapters.insert_all (Adapters.filter_map (volume category) list))
