-- ===== src/Examples/Contracts.antt =====
-- Trades of OKX's swaps, in contracts: okx_trade.rs and scale.rs of crates/exchange-okx.
use trading_terminal_cluster.Common.{ℕ, [], ◌∷◌, true, some, ◌≡◌, refl, ◌*◌, ◌^◌, ◌<◌, ◌≤◌, arith}
use trading_terminal_cluster.Common.Int.{pos}
use trading_terminal_cluster.Common.Eq.{nat_eq, list_eq}
use trading_terminal_cluster.Common.Text.{Text, codes, trim}
use trading_terminal_cluster.Common.Json.{Json, str_field}
use trading_terminal_cluster.Core.{SymbolSpec, TradePrint, okx_f, bid, perp, usdt}
use trading_terminal_cluster.Core.Wire.{symbol_key_eq}
use trading_terminal_cluster.Scale.{
  ok, split_parts, parse_scaled, parse_i64, fraction_value, multiplier, combine,
}
use trading_terminal_cluster.Scale.Sound.{Scaled}
use trading_terminal_cluster.Common.Machine.{max_i64, saturating_mul}
use trading_terminal_cluster.Common.Parse.{parse_digits}
use trading_terminal_cluster.Common.Slices.{remove_char}
use trading_terminal_cluster.Adapters.Okx.{
  decimals_of, ct_val_fraction, set_ct, multiply_decimal_strs,
}
use trading_terminal_cluster.Adapters.Okx.Contracts.{Lowest, ct_val_fraction_lem}
use trading_terminal_cluster.Adapters.Okx.Quantities.{Product, parse_trade-Product}
use trading_terminal_cluster.Common.Cuts.{Without}
use trading_terminal_cluster.Common.Text.{all_chars}
use trading_terminal_cluster.Adapters.Okx.{to_okx_inst_id, normalize_inst_id}
use trading_terminal_cluster.Adapters.Names.{normalize_inst_id-to_okx_inst_id}
use trading_terminal_cluster.Adapters.Okx.Trades
use trading_terminal_cluster.Adapters.Okx.Trades.{contract_of}
use trading_terminal_cluster.Examples.Documents.{Document, text, end, reading, object}

abbrev json : Json
json = reading end

ct_val_fraction_lem_example :
    (n : ℕ) × (d : ℕ) × (ct_val_fraction (codes "0.05") ≡ some (pos n, pos d))
    × (n * 10 ^ decimals_of (codes "0.05") ≡ 5 * d)
    × (0 < d)
    × Lowest n d
unfolding parse_digits remove_char decimals_of
ct_val_fraction_lem_example = ct_val_fraction_lem (codes "0.05") 5 five places
  where
    five : parse_digits max_i64 (remove_char b'.' (codes "0.05")) ≡ some 5
    five = refl

    places : decimals_of (codes "0.05") ≤ 18
    places = omega arith

-- A swap of OKX's: contracts of 0.01, of which hundredths can be traded.
abbrev swap_of : ℕ → SymbolSpec
swap_of scale = record {
  exchange = okx_f;
  market_type = perp;
  quote = usdt;
  symbol = codes "BTCUSDT";
  price_scale = 1;
  qty_scale = scale;
  tick_size = pos 1;
  step_size = pos 1;
}

abbrev okx_trade : Text → Document
okx_trade sz = object (
    (codes "ts", text (codes "1700000000000"))
    ∷ (codes "side", text (codes "buy"))
    ∷ (codes "px", text (codes "65000.5"))
    ∷ (codes "sz", text sz)
    ∷ (codes "tradeId", text (codes "7"))
    ∷ [])

abbrev contracts : ℕ → TradePrint
contracts raw = record {
  exchange_ts_ns = pos 1_700_000_000_000_000_000;
  aggressor = bid;
  price = pos 650_005;
  qty = pos raw;
  trade_id = 7;
}

read_contracts :
    Trades.read_trade json (swap_of 4) (okx_trade (codes "250")) ≡ ok (contracts 2_500_000)
unfolding Trades.read_trade parse_scaled parse_i64 fraction_value multiplier combine saturating_mul
read_contracts = refl

parse_trade-Product_example :
    (amount : ℕ) × (sz : Text) × (Trades.parse_trade json
        (swap_of 4)
        (contract_of (swap_of 4) (set_ct (codes "BTCUSDT") (pos 1) (pos 100) []))
        (okx_trade (codes "250"))
      ≡ some (ok (contracts amount)))
    × Product 2_500_000 1 (decimals_of (codes "0.01")) amount
    × (str_field json (codes "sz") (okx_trade (codes "250")) ≡ some sz)
    × Scaled (split_parts (trim sz)).0 (split_parts (trim sz)).1 4 (pos 2_500_000)
unfolding parse_digits remove_char decimals_of ct_val_fraction
parse_trade-Product_example =
    parse_trade-Product json (swap_of 4) (okx_trade (codes "250")) (contracts 2_500_000) []
      (codes "0.01") 1 1 100 2_500_000 refl one places hundredth read_contracts refl (omega arith)
  where
    one : parse_digits max_i64 (remove_char b'.' (codes "0.01")) ≡ some 1
    one = refl

    places : decimals_of (codes "0.01") ≤ 18
    places = omega arith

    hundredth : ct_val_fraction (codes "0.01") ≡ some (pos 1, pos 100)
    hundredth = refl

-- Contracts of 1000, of which hundredths can be traded: the scale of amounts is 0.
lots_of_ten : multiply_decimal_strs (codes "0.01") (codes "1000") ≡ some (codes "10")
unfolding multiply_decimal_strs
lots_of_ten = refl

-- A trade of 0.37 of them, which is 370 of the base, has the quantity 0.
no_amount :
    Trades.parse_trade json (swap_of 0) (pos 1_000, pos 1) (okx_trade (codes "0.37"))
    ≡ some (ok (contracts 0))
unfolding Trades.parse_trade parse_scaled parse_i64 fraction_value multiplier combine saturating_mul
no_amount = refl

abbrev same_case : Text → Text
same_case s = s

normalize_inst_id-to_okx_inst_id_example :
    normalize_inst_id same_case (codes "BTC-USDT-SWAP") ≡ codes "BTCUSDT"
unfolding to_okx_inst_id all_chars
normalize_inst_id-to_okx_inst_id_example =
    normalize_inst_id-to_okx_inst_id same_case (codes "BTCUSDT") true (codes "BTC-USDT-SWAP") refl
      plain named
  where
    plain : Without b'-' (codes "BTCUSDT")
    plain = refl

    named : to_okx_inst_id same_case (codes "BTCUSDT") true ≡ some (codes "BTC-USDT-SWAP")
    named = refl
