-- ===== src/Api/Range.antt =====
-- crates/cluster-api/src/cluster_history.rs: `GET /v1/clusters/range`.
pub mod Sql
pub mod Query
pub mod Rows
pub mod Columns
pub mod Handler
pub mod Requests
use Prim.Native.Nat.{min, max}
use trading_terminal_cluster.Common.{
  ℕ, ◌+◌, ◌-◌, ◌*◌, ◌/◌, List, [], ◌∷◌, Bool, true, false, ◌||◌, not, Option, none, some,
}
use trading_terminal_cluster.Common.Tests.{if◌then◌else◌, ltb, leb, nat_beq}
use trading_terminal_cluster.Common.Int.{ℤ, pos, pos_part, ltb_ℤ, leb_ℤ, ◌-ℤ◌, ◌+ℤ◌, neg_part}
use trading_terminal_cluster.Common.Machine.{wrap_i64, max_u64}
use trading_terminal_cluster.Common.Eq.{◌==◌, nat_eq, list_eq}
use trading_terminal_cluster.Common.Text.{Text, codes, all_chars, is_alphanumeric, str_len}
use trading_terminal_cluster.Api.Timeframes.{is_supported_interval}

abbrev pub max_bars : ℕ
max_bars = 500_000

pub record RangeParams : Type 0 where
  pub exchange : Text
  pub market_type : Text
  pub symbol : Text
  pub interval_seconds : ℕ
  pub from_ms : ℤ
  pub to_ms : ℤ

-- What a refused request is told.
pub data BadParams : Type 0 where
  symbol_length symbol_chars bad_market_type exchange_length exchange_chars : BadParams
  unsupported_interval negative_time empty_range : BadParams

-- The early returns of a check.
abbrev pub first_failure : List (Bool × BadParams) → Option BadParams
first_failure [] = none
first_failure ((failed, e) ∷ checks) = if failed then some e else first_failure checks

unfoldable pub is_symbol_char : ℕ → Bool
unfolding is_alphanumeric
is_symbol_char c = is_alphanumeric c || nat_beq c b'_' || nat_beq c b'-'

-- A length that is zero or above 32 bytes.
unfoldable pub bad_length : Text → Bool
unfolding str_len
bad_length s = nat_beq (str_len s) 0 || ltb 32 (str_len s)

-- `none` accepts the request.
unfoldable pub validate_params : RangeParams → Option BadParams
unfolding bad_length all_chars is_symbol_char is_supported_interval
validate_params q = first_failure (
    (bad_length q.symbol, symbol_length)
    ∷ (not (all_chars is_symbol_char q.symbol), symbol_chars)
    ∷ (not (q.market_type == codes "spot" || q.market_type == codes "perp"), bad_market_type)
    ∷ (bad_length q.exchange, exchange_length)
    ∷ (not (all_chars is_alphanumeric q.exchange), exchange_chars)
    ∷ (not (is_supported_interval q.interval_seconds), unsupported_interval)
    ∷ (ltb_ℤ q.from_ms (pos 0) || ltb_ℤ q.to_ms (pos 0), negative_time)
    ∷ (leb_ℤ q.to_ms q.from_ms, empty_range)
    ∷ [])

-- `buckets_per_window` of `estimate_max_rows`.
abbrev pub buckets_per_window : ℕ
buckets_per_window = 50

unfoldable pub estimate_max_rows : RangeParams → ℕ
unfolding wrap_i64 ◌-ℤ◌
estimate_max_rows q =
    let span_ms = pos_part (wrap_i64 (q.to_ms -ℤ q.from_ms)) in
    let tf_ms = q.interval_seconds * 1000 in
    min (span_ms / max tf_ms 1 * buckets_per_window) max_u64

-- A quote is doubled.
unfoldable pub sql_escape : Text → Text
sql_escape [] = []
sql_escape (c ∷ s) =
    let rest = sql_escape s in if nat_beq c b'\'' then b'\'' ∷ b'\'' ∷ rest else c ∷ rest

pub data CacheControl : Type 0 where
  immutable no_store : CacheControl

unfoldable pub cache_value : RangeParams → ℤ → CacheControl
unfolding wrap_i64 ◌+ℤ◌
cache_value q now_ms =
    if ltb_ℤ (wrap_i64 (q.to_ms +ℤ pos (2 * (q.interval_seconds * 1000)))) now_ms
    then immutable
    else no_store
