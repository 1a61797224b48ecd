-- ===== src/Api/Range/Query.antt =====
-- The conditions of the query that crates/cluster-api/src/cluster_history.rs builds for a range.
use mathlib.Core.Path.{subst}
use trading_terminal_cluster.Common.{
  List, [], ◌∷◌, ◌++◌, ◌≡◌, refl, sym, ap, ◌∙◌, arith, true, ◌||◌, inl, inr,
}
use trading_terminal_cluster.Common.Lists.{take, drop}
use trading_terminal_cluster.Common.Tests.{nat_beq, Bool-cases}
use trading_terminal_cluster.Common.Sub.{append_assoc}
use trading_terminal_cluster.Common.Eq.{◌==◌, nat_eq, list_eq, list_beq_iff}
use trading_terminal_cluster.Common.Text.{Text, codes}
use trading_terminal_cluster.Common.Show.{show_ℕ, show_ℤ}
use trading_terminal_cluster.Api.Timeframes.{table_name_for}
use trading_terminal_cluster.Api.Range.{RangeParams, sql_escape}
use trading_terminal_cluster.Api.Range.Sql.{
  concat, range_filter, direct_parts, direct_sql, rollup_parts, rollup_sql, build_range_sql,
}

-- The rows of one symbol from the first instant up to the second, with the names of the request as
-- they are.
abbrev pub condition : RangeParams → Text
condition q =
    codes "exchange = '"
    ++ (q.exchange
        ++ (codes "' AND market_type = '"
            ++ (q.market_type
                ++ (codes "' AND symbol = '"
                    ++ (q.symbol
                        ++ (codes "' AND window_start >= fromUnixTimestamp64Milli("
                            ++ (show_ℤ q.from_ms
                                ++ (codes ") AND window_start <  fromUnixTimestamp64Milli("
                                    ++ (show_ℤ q.to_ms ++ codes ")")))))))))

-- A text that has a part twice.
abbrev pub Twice : Text → Text → Type 0
Twice part whole =
    (before : Text) × (between : Text) × (after : Text) × (whole
      ≡ before ++ (part ++ (between ++ (part ++ after))))

concat-append : (xs ys : List Text) → concat (xs ++ ys) ≡ concat xs ++ concat ys
concat-append [] ys = refl
concat-append (x ∷ xs) ys =
    ap (λ s. x ++ s) (concat-append xs ys) ∙ sym (append_assoc x (concat xs) (concat ys))

concat-Twice : (xs ys zs : List Text) (s : Text) → Twice s (concat (xs ++ (s ∷ (ys ++ (s ∷ zs)))))
concat-Twice xs ys zs s = (
  concat xs,
  concat ys,
  concat zs,
  concat-append xs (s ∷ (ys ++ (s ∷ zs)))
      ∙ ap (λ t. concat xs ++ (s ++ t)) (concat-append ys (s ∷ zs)),
)

direct_sql-Twice : (db table s : Text) → Twice s (direct_sql db table s)
unfolding direct_sql direct_parts
direct_sql-Twice db table s =
    let parts = direct_parts db table s in
    concat-Twice (take 14 parts) (take 2 (drop 15 parts)) (drop 18 parts) s

rollup_sql-Twice : (db base n s : Text) → Twice s (rollup_sql db base n s)
unfolding rollup_sql rollup_parts
rollup_sql-Twice db base n s =
    let parts = rollup_parts db base n s in
    concat-Twice (take 11 parts) (take 14 (drop 12 parts)) (drop 27 parts) s

escape_market : (s : Text) → (s == codes "spot" || s == codes "perp") ≡ true → sql_escape s ≡ s
unfolding sql_escape
escape_market s h = elim (Bool-cases (s == codes "spot")) [
  | inl e ↦ subst (λ t. sql_escape t ≡ t) (sym ((list_beq_iff s (codes "spot")).0 e)) refl
  | inr no_spot ↦
      let e : (s == codes "perp") ≡ true = ground (arith, no_spot, h) in
      subst (λ t. sql_escape t ≡ t) (sym ((list_beq_iff s (codes "perp")).0 e)) refl
]

range_filter-condition :
    (q : RangeParams)
    → sql_escape q.exchange ≡ q.exchange
    → sql_escape q.market_type ≡ q.market_type
    → sql_escape q.symbol ≡ q.symbol
    → range_filter q ≡ condition q
unfolding range_filter
range_filter-condition q exchange market symbol = rw exchange (rw market (rw symbol refl))

build_range_sql-Twice :
    (db : Text) (q : RangeParams) → Twice (range_filter q) (build_range_sql db q)
unfolding build_range_sql
build_range_sql-Twice db q =
    elim (Bool-cases (nat_beq q.interval_seconds 30 || nat_beq q.interval_seconds 60)) [
      | inl direct ↦
          rw direct (direct_sql-Twice db (table_name_for q.interval_seconds) (range_filter q))
      | inr rollup ↦
          rw rollup
            (rollup_sql-Twice db (table_name_for 60) (show_ℕ q.interval_seconds) (range_filter q))
    ]

-- Both selections of the query, of the rows and of the windows, have the request's condition.
pub build_range_sql-condition :
    (db : Text) (q : RangeParams)
    → sql_escape q.exchange ≡ q.exchange
    → (q.market_type == codes "spot" || q.market_type == codes "perp") ≡ true
    → sql_escape q.symbol ≡ q.symbol
    → Twice (condition q) (build_range_sql db q)
build_range_sql-condition db q exchange market symbol =
    subst (λ s. Twice s (build_range_sql db q))
      (range_filter-condition q exchange (escape_market q.market_type market) symbol)
      (build_range_sql-Twice db q)
