-- ===== src/Api/Range/Handler.antt =====
-- `cluster_range` of crates/cluster-api/src/cluster_history.rs. ClickHouse is a parameter: what it
-- answers to a query; the texts of the error bodies are left out.
use trading_terminal_cluster.Common.{List, Option, none, some}
use trading_terminal_cluster.Common.Tests.{if◌then◌else◌, ltb}
use trading_terminal_cluster.Common.Int.{ℤ}
use trading_terminal_cluster.Common.Text.{Text}
use trading_terminal_cluster.Api.Range.{
  RangeParams, BadParams, CacheControl, max_bars, validate_params, estimate_max_rows, cache_value,
}
use trading_terminal_cluster.Api.Range.Sql.{build_range_sql}
use trading_terminal_cluster.Api.Range.Rows.{Value, Columns, no_columns, parse_rows}

-- The answer to a query: no answer, a body that cannot be read, a status that is not 2xx, or the
-- lines of a body.
pub data Answer : Type 0 where
  unreachable unreadable failed : Answer
  body : List Text → Answer

pub data Response : Type 0 where
  bad_request : BadParams → Response
  payload_too_large bad_gateway : Response
  response : CacheControl → Columns → Response

module _ (clickhouse : Text → Answer) (parse_line : Text → Option (List Value)) where
  unfoldable pub cluster_range : Text → ℤ → RangeParams → Response
  unfolding parse_rows cache_value
  cluster_range db now_ms q = elim (validate_params q) [
    | some e ↦ bad_request e
    | none ↦
        if ltb max_bars (estimate_max_rows q)
        then payload_too_large
        else (elim (clickhouse (build_range_sql db q)) [
          | unreachable ↦ bad_gateway
          | unreadable ↦ bad_gateway
          | failed ↦ bad_gateway
          | body lines ↦
              response (cache_value q now_ms) (parse_rows parse_line lines none no_columns)
        ])
  ]
