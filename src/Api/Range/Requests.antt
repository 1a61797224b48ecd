-- ===== src/Api/Range/Requests.antt =====
-- The requests that `validate_params` of crates/cluster-api/src/cluster_history.rs accepts.
use trading_terminal_cluster.Common.{
  ℕ, ◌-◌, ◌*◌, ◌/◌, ◌≤◌, ◌<◌, List, ◌≡◌, refl, arith, true, false, ◌||◌, Option, none,
}
use trading_terminal_cluster.Common.Int.{ℤ, pos, negsuc, ltb_ℤ, leb_ℤ}
use trading_terminal_cluster.Common.Eq.{◌==◌, nat_eq, list_eq}
use trading_terminal_cluster.Common.Text.{Text, codes, all_chars, is_alphanumeric}
use trading_terminal_cluster.Api.Timeframes.{is_supported_interval}
use trading_terminal_cluster.Common.Lists.{take}
use trading_terminal_cluster.Api.Range.Rows.{Value, Row, Columns, no_columns}
use trading_terminal_cluster.Api.Range.Columns.{Bar, Told, Appended}
use trading_terminal_cluster.Api.Range.Query.{condition, Twice}
use trading_terminal_cluster.Api.Range.Sql.{build_range_sql}
use trading_terminal_cluster.Api.Range.{
  max_bars, RangeParams, validate_params, is_symbol_char, bad_length,
}

-- What an accepted request is.
pub record Valid (q : RangeParams) : Type 0 where
  pub symbol_length : bad_length q.symbol ≡ false
  pub symbol_chars : all_chars is_symbol_char q.symbol ≡ true
  pub market : (q.market_type == codes "spot" || q.market_type == codes "perp") ≡ true
  pub exchange_length : bad_length q.exchange ≡ false
  pub exchange_chars : all_chars is_alphanumeric q.exchange ≡ true
  pub interval : is_supported_interval q.interval_seconds ≡ true
  pub range : (f : ℕ) × (t : ℕ) × (q.from_ms ≡ pos f) × (q.to_ms ≡ pos t) × (f < t)

times_range :
    (from to : ℤ)
    → (ltb_ℤ from (pos 0) || ltb_ℤ to (pos 0)) ≡ false
    → leb_ℤ to from ≡ false
    → (f : ℕ) × (t : ℕ) × (from ≡ pos f) × (to ≡ pos t) × (f < t)
times_range (pos f) (pos t) h k = (f, t, refl, refl, ground arith)
times_range (pos f) (negsuc t) h k = absurd (ground arith)
times_range (negsuc f) to h k = absurd (ground arith)

-- An accepted request is valid.
pub validate_params-Valid : (q : RangeParams) → validate_params q ≡ none → Valid q
unfolding validate_params
validate_params-Valid q h = record {
  symbol_length = ground arith;
  symbol_chars = ground arith;
  market = ground arith;
  exchange_length = ground arith;
  exchange_chars = ground arith;
  interval = ground arith;
  range = times_range q.from_ms q.to_ms (ground arith) (ground arith);
}

-- What a served request is: valid, estimated within the limit, and answered from the rows that its
-- query asked for.
pub record Served (parse_line : Text → Option (List Value)) (db : Text) (lines : List Text)
    (q : RangeParams) (columns : Columns) : Type 0 where
  pub valid : Valid q
  pub within_limit :
      (f : ℕ) × (t : ℕ) × (q.from_ms ≡ pos f)
      × (q.to_ms ≡ pos t)
      × (f < t)
      × ((t - f) / (q.interval_seconds * 1000) * 50 ≤ max_bars)
  pub rows :
      (rs : List (Row × Bar)) × Told parse_line lines rs
      × Appended no_columns columns none (take max_bars rs)
  pub few : columns.n ≤ max_bars
  pub query : Twice (condition q) (build_range_sql db q)
