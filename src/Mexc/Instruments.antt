-- ===== src/Mexc/Instruments.antt =====
-- crates/exchange-mexc/src/instruments_info.rs: the parsers of the two lists of instruments.
use Prim.Native.Nat.{min}
use trading_terminal_cluster.Common.{ℕ, List, Bool, false, not, Option, none, some}
use trading_terminal_cluster.Common.Tests.{if◌then◌else◌}
use trading_terminal_cluster.Common.Int.{ℤ, pos, int_beq}
use trading_terminal_cluster.Common.Eq.{◌==◌, nat_eq, list_eq}
use trading_terminal_cluster.Common.Text.{Text, codes}
use trading_terminal_cluster.Common.Slices.{strip_suffix, remove_char}
use trading_terminal_cluster.Common.Json.{
  Json, and_then, or_default, str_field, array_field, i64_field, u64_field,
}
use trading_terminal_cluster.Core.{mexc, mexc_f, spot, perp, Quote, usdt, usdc, SymbolSpec}
use trading_terminal_cluster.Scale.{
  Result, ok, err, ◌>>=◌, is_empty, bad_document, missing, count_decimals_trimmed,
}
use trading_terminal_cluster.Adapters
use trading_terminal_cluster.Adapters.{require, filter_map, spec_from}
use trading_terminal_cluster.Adapters.Okx.{CtMap}
use trading_terminal_cluster.Adapters.Okx.Instruments.{Turn, skipped, turns_of}
use trading_terminal_cluster.Adapters.Kucoin.Instruments.{step_of, contract_turn}

-- The quote of a contract.
unfoldable pub venue_quote : Text → Option Quote
unfolding strip_suffix
venue_quote venue = elim (strip_suffix (codes "_USDT") venue) [
  | some _ ↦ some usdt
  | none ↦ elim (strip_suffix (codes "_USDC") venue) [ some _ ↦ some usdc | none ↦ none ]
]

-- The text of a step that is there and not empty, or "1".
unfoldable pub step_text : Option Text → Text
step_text none = codes "1"
step_text (some s) = if is_empty s then codes "1" else s

-- `fmt_number` is what `fmt_decimal` makes of a finite and positive number, an f64, and nothing for
-- any other value.
module _ (json : Json) (to_uppercase : Text → Text) (fmt_number : json.Value → Option Text) where
  open json use {Value, from_str, get, as_array}

  unfoldable pub is_halted : Value → Bool
  unfolding str_field
  is_halted s = elim (str_field json (codes "status") s) [
    | none ↦ false
    | some status ↦ not (status == codes "1")
  ]

  unfoldable pub spot_sizes : Value → Option (ℕ × ℕ × ℤ × ℤ)
  unfolding u64_field str_field step_text step_of
  spot_sizes s =
      let step_str = step_text (str_field json (codes "baseSizePrecision") s) in
      let qty_scale = count_decimals_trimmed step_str in
      and_then (u64_field json (codes "quotePrecision") s)
        (λ n. some (min n 255, qty_scale, pos 1, step_of step_str qty_scale))

  unfoldable pub spot_listed : Value → Option SymbolSpec
  unfolding is_halted str_field spot_sizes spec_from Adapters.quote_of
  spot_listed s =
      let symbol = and_then (str_field json (codes "symbol") s) (λ x. some (to_uppercase x)) in
      let quote = and_then (str_field json (codes "quoteAsset") s) Adapters.quote_of in
      let spec = spec_from (mexc, spot) symbol quote (spot_sizes s) in
      if is_halted s then none else spec

  unfoldable pub parse_spot : Text → Result (List SymbolSpec)
  unfolding array_field spot_listed
  parse_spot text = elim (from_str text) [
    | none ↦ err bad_document
    | some v ↦ do
      list ← require (codes "symbols") (array_field json (codes "symbols") v)
      ok (filter_map spot_listed list)
  ]

  unfoldable pub decimal_field : Text → Text → Value → Text
  decimal_field key absent s = or_default absent (and_then (get key s) fmt_number)

  unfoldable pub is_enabled : Value → Bool
  unfolding i64_field
  is_enabled s = elim (i64_field json (codes "state") s) [
    | none ↦ false
    | some state ↦ int_beq state (pos 0)
  ]

  unfoldable pub contract_of_venue : Text → Quote → Value → Turn
  unfolding decimal_field step_of contract_turn remove_char
  contract_of_venue venue quote s =
      let price_unit_str = decimal_field (codes "priceUnit") (codes "0.01") s in
      contract_turn (mexc_f, perp) quote (remove_char b'_' venue) price_unit_str
        (decimal_field (codes "volUnit") (codes "1") s)
        (decimal_field (codes "contractSize") (codes "1") s)
        (step_of price_unit_str (count_decimals_trimmed price_unit_str))

  -- A turn of the loop over the contracts.
  unfoldable pub turn : Value → Turn
  unfolding is_enabled str_field venue_quote contract_of_venue
  turn s =
      if is_enabled s
      then (elim (str_field json (codes "symbol") s) [
        | none ↦ skipped
        | some symbol ↦ elim (venue_quote (to_uppercase symbol)) [
          | none ↦ skipped
          | some quote ↦ contract_of_venue (to_uppercase symbol) quote s
        ]
      ])
      else skipped

  -- The contracts, and the contract values after them; none is a panic.
  unfoldable pub parse_futures : Text → CtMap → Option (Result (List SymbolSpec × CtMap))
  unfolding array_field turn turns_of
  parse_futures text m = elim (from_str text) [
    | none ↦ some (err bad_document)
    | some v ↦ elim (array_field json (codes "data") v) [
      | none ↦ some (err (missing (codes "data")))
      | some list ↦ and_then (turns_of turn list m) (λ out. some (ok out))
    ]
  ]
