-- ===== src/Api/Range/Sql.antt =====
-- `build_range_sql` of crates/cluster-api/src/cluster_history.rs: the query of a range.
use trading_terminal_cluster.Common.{List, [], ◌∷◌, ◌++◌, ◌||◌}
use trading_terminal_cluster.Common.Tests.{if◌then◌else◌, nat_beq}
use trading_terminal_cluster.Common.Text.{Text, codes}
use trading_terminal_cluster.Common.Show.{show_ℕ, show_ℤ}
use trading_terminal_cluster.Api.Timeframes.{table_name_for}
use trading_terminal_cluster.Api.Range.{RangeParams, sql_escape}

abbrev pub concat : List Text → Text
concat [] = []
concat (s ∷ ss) = s ++ concat ss

unfoldable pub range_filter : RangeParams → Text
range_filter q = concat (
    codes "exchange = '"
    ∷ sql_escape q.exchange
    ∷ codes "' AND market_type = '"
    ∷ sql_escape q.market_type
    ∷ codes "' AND symbol = '"
    ∷ sql_escape q.symbol
    ∷ codes "' AND window_start >= fromUnixTimestamp64Milli("
    ∷ show_ℤ q.from_ms
    ∷ codes ") AND window_start <  fromUnixTimestamp64Milli("
    ∷ show_ℤ q.to_ms
    ∷ codes ")"
    ∷ [])

-- The query of a window that has a table of its own, and its pieces.
unfoldable pub direct_parts : Text → Text → Text → List Text
direct_parts db table filter =
    codes "SELECT toUnixTimestamp64Milli(t.window_start) AS ts_ms, t.price,"
    ∷ codes " t.bid_qty, t.ask_qty, t.trades, w.ps, w.qs, w.o, w.c, w.h, w.l FROM "
    ∷ db
    ∷ codes "."
    ∷ table
    ∷ codes " AS t FINAL INNER JOIN ( SELECT window_start, maxIf(price_scale,"
    ∷ codes " price_scale > 0) AS ps, maxIf(qty_scale, qty_scale > 0)     AS qs,"
    ∷ codes " maxIf(open, open > 0)               AS o, argMaxIf(close,"
    ∷ codes " ingested_at, close > 0) AS c, maxIf(high, high > 0)               AS"
    ∷ codes " h, minIf(low, low > 0)                 AS l FROM "
    ∷ db
    ∷ codes "."
    ∷ table
    ∷ codes " FINAL WHERE "
    ∷ filter
    ∷ codes " GROUP BY window_start ) AS w ON t.window_start = w.window_start"
    ∷ codes " WHERE "
    ∷ filter
    ∷ codes " ORDER BY t.window_start, t.price FORMAT JSONCompactEachRow"
    ∷ []

unfoldable pub direct_sql : Text → Text → Text → Text
unfolding direct_parts
direct_sql db table filter = concat (direct_parts db table filter)

-- The query that adds up the one-minute windows, and its pieces.
unfoldable pub rollup_parts : Text → Text → Text → Text → List Text
rollup_parts db base n filter =
    codes "SELECT toUnixTimestamp(b.rw) * 1000 AS ts_ms, b.price, b.bid_qty,"
    ∷ codes " b.ask_qty, b.trades, b.ps, b.qs, w.o, w.c, w.h, w.l FROM ( SELECT"
    ∷ codes " toStartOfInterval(window_start, INTERVAL "
    ∷ n
    ∷ codes " SECOND, 'UTC') AS rw, price, sum(bid_qty) AS bid_qty, sum(ask_qty)"
    ∷ codes " AS ask_qty, sum(trades) AS trades, maxIf(price_scale, price_scale >"
    ∷ codes " 0) AS ps, maxIf(qty_scale, qty_scale > 0) AS qs FROM "
    ∷ db
    ∷ codes "."
    ∷ base
    ∷ codes " FINAL WHERE "
    ∷ filter
    ∷ codes " GROUP BY rw, price ) AS b INNER JOIN ( SELECT rw, argMinIf(sub_open,"
    ∷ codes "  sub_ws, sub_open  > 0) AS o, argMaxIf(sub_close, sub_ws, sub_close"
    ∷ codes " > 0) AS c, maxIf(sub_high, sub_high > 0) AS h, minIf(sub_low, "
    ∷ codes " sub_low  > 0) AS l FROM ( SELECT toStartOfInterval(window_start,"
    ∷ codes " INTERVAL "
    ∷ n
    ∷ codes " SECOND, 'UTC') AS rw, window_start AS sub_ws, maxIf(open, open > 0) "
    ∷ codes "                   AS sub_open, argMaxIf(close, ingested_at, close >"
    ∷ codes " 0) AS sub_close, maxIf(high, high > 0)                    AS"
    ∷ codes " sub_high, minIf(low, low > 0)                      AS sub_low FROM "
    ∷ db
    ∷ codes "."
    ∷ base
    ∷ codes " FINAL WHERE "
    ∷ filter
    ∷ codes " GROUP BY rw, window_start ) GROUP BY rw ) AS w ON b.rw = w.rw ORDER"
    ∷ codes " BY ts_ms, b.price FORMAT JSONCompactEachRow"
    ∷ []

unfoldable pub rollup_sql : Text → Text → Text → Text → Text
unfolding rollup_parts
rollup_sql db base n filter = concat (rollup_parts db base n filter)

unfoldable pub build_range_sql : Text → RangeParams → Text
unfolding range_filter direct_sql rollup_sql
build_range_sql db q =
    if nat_beq q.interval_seconds 30 || nat_beq q.interval_seconds 60
    then direct_sql db (table_name_for q.interval_seconds) (range_filter q)
    else rollup_sql db (table_name_for 60) (show_ℕ q.interval_seconds) (range_filter q)
