-- ===== src/Ingest/Config/Retention.antt =====
-- `RetentionConfig` of crates/cluster-ingest/src/config.rs: which TTL clauses a table gets, and which
-- settings are refused. `to_uppercase` and `to_lowercase` are parameters.
pub mod Rules
pub mod Governing
pub mod Validity
use trading_terminal_cluster.Common.{
  ℕ, List, [], ◌∷◌, ◌++◌, map, Bool, true, false, not, ◌&&◌, ◌||◌, Option, none, some,
}
use trading_terminal_cluster.Common.Tests.{if◌then◌else◌, ltb, nat_beq}
use trading_terminal_cluster.Common.Eq.{◌==◌, nat_eq, list_eq, pair_eq, option_eq}
use trading_terminal_cluster.Common.Map.{lookup, insert, member, set_insert}
use trading_terminal_cluster.Common.Show.{show_ℕ}
use trading_terminal_cluster.Common.Text.{Text, codes}

pub record RetentionOverride : Type 0 where
  pub exchange : Text
  pub market_type : Text
  pub interval_seconds : Option ℕ
  pub days : ℕ

pub record RetentionConfig : Type 0 where
  pub default_days : ℕ
  pub move_to_cold_days : Option ℕ
  pub apply_on_start : Bool
  pub overrides : List RetentionOverride

-- A market of an exchange.
abbrev pub Slice : Type 0
Slice = Text × Text

abbrev pub slice_of : RetentionOverride → Slice
slice_of ov = (ov.exchange, ov.market_type)

-- The override is for another table.
unfoldable pub is_other_table : ℕ → RetentionOverride → Bool
is_other_table interval_seconds ov = elim (ov.interval_seconds) [
  | none ↦ false
  | some tf ↦ not (nat_beq tf interval_seconds)
]

unfoldable pub is_none {ℓ} : {A : Type ℓ} → Option A → Bool
is_none none = true
is_none (some _) = false

unfoldable pub add_rule :
    RetentionOverride → List (Slice × RetentionOverride) → List (Slice × RetentionOverride)
unfolding is_none
add_rule ov effective = elim (lookup (slice_of ov) effective) [
  | none ↦ insert (slice_of ov) ov effective
  | some prev ↦
      if is_none prev.interval_seconds && not (is_none ov.interval_seconds)
      then insert (slice_of ov) ov effective
      else effective
]

unfoldable pub add_rules :
    ℕ → List RetentionOverride → List (Slice × RetentionOverride) → List (Slice × RetentionOverride)
unfolding is_other_table add_rule
add_rules tf [] effective = effective
add_rules tf (ov ∷ ovs) effective =
    let skip = add_rules tf ovs effective in
    let take = add_rules tf ovs (add_rule ov effective) in
    if is_other_table tf ov then skip else take

-- A clause of a TTL: rows older than `days` go, or move to the cold volume.
pub data Clause : Type 0 where
  delete_slice : ℕ → RetentionOverride → Clause
  to_cold delete_default : ℕ → List RetentionOverride → Clause

unfoldable pub delete_clauses : List (Slice × RetentionOverride) → List Clause
delete_clauses [] = []
delete_clauses ((_, ov) ∷ m) =
    let rest = delete_clauses m in if ltb 0 ov.days then delete_slice ov.days ov ∷ rest else rest

unfoldable pub values : List (Slice × RetentionOverride) → List RetentionOverride
values [] = []
values ((_, ov) ∷ m) = ov ∷ values m

unfoldable pub cold_clauses : ℕ → Option ℕ → List RetentionOverride → List Clause
cold_clauses default_days none excluded = []
cold_clauses default_days (some cold) excluded =
    if ltb 0 cold && ltb cold default_days then to_cold cold excluded ∷ [] else []

unfoldable pub default_clauses : RetentionConfig → List RetentionOverride → List Clause
unfolding cold_clauses
default_clauses c excluded =
    if ltb 0 c.default_days
    then cold_clauses c.default_days c.move_to_cold_days excluded
      ++ (delete_default c.default_days excluded ∷ [])
    else []

unfoldable pub clauses_for : RetentionConfig → ℕ → List Clause
unfolding add_rules delete_clauses values default_clauses
clauses_for c tf =
    let effective = add_rules tf c.overrides [] in
    delete_clauses effective ++ default_clauses c (values effective)

unfoldable pub sql_escape_single : Text → Text
sql_escape_single [] = []
sql_escape_single (c ∷ s) =
    let rest = sql_escape_single s in if nat_beq c b'\'' then b'\'' ∷ b'\'' ∷ rest else c ∷ rest

-- `join`
unfoldable pub join : Text → List Text → Text
join sep [] = []
join sep (s ∷ []) = s
join sep (s ∷ t ∷ ts) = s ++ sep ++ join sep (t ∷ ts)

unfoldable pub condition : RetentionOverride → Text
unfolding sql_escape_single
condition ov =
    codes "exchange = '"
    ++ sql_escape_single ov.exchange
    ++ codes "' AND market_type = '"
    ++ sql_escape_single ov.market_type
    ++ codes "'"

unfoldable pub default_where : List RetentionOverride → Text
unfolding join condition
default_where [] = []
default_where (ov ∷ ovs) =
    codes " WHERE NOT (" ++ join (codes " OR ") (map condition (ov ∷ ovs)) ++ codes ")"

unfoldable pub show_clause : Clause → Text
unfolding condition default_where
show_clause (delete_slice days ov) =
    codes "toDateTime(window_start) + INTERVAL "
    ++ show_ℕ days
    ++ codes " DAY DELETE WHERE "
    ++ condition ov
show_clause (to_cold cold excluded) =
    codes "toDateTime(window_start) + INTERVAL "
    ++ show_ℕ cold
    ++ codes " DAY TO VOLUME 'cold'"
    ++ default_where excluded
show_clause (delete_default days excluded) =
    codes "toDateTime(window_start) + INTERVAL "
    ++ show_ℕ days
    ++ codes " DAY DELETE"
    ++ default_where excluded

unfoldable pub ttl_clause_for : RetentionConfig → ℕ → Option Text
unfolding clauses_for join show_clause
ttl_clause_for c interval_seconds = elim (clauses_for c interval_seconds) [
  | [] ↦ none
  | clause ∷ clauses ↦ some (join (codes ", ") (map show_clause (clause ∷ clauses)))
]

pub data RetentionError : Type 0 where
  duplicate exchange_case market_case unknown_market : RetentionOverride → RetentionError

abbrev pub rule_key : RetentionOverride → Slice × Option ℕ
rule_key ov = (slice_of ov, ov.interval_seconds)

module _ (to_uppercase to_lowercase : Text → Text) where
  unfoldable pub check_overrides :
      List (Slice × Option ℕ) → List RetentionOverride → Option RetentionError
  check_overrides seen [] = none
  check_overrides seen (ov ∷ ovs) =
      let rest = check_overrides (set_insert (rule_key ov) seen) ovs in
      if member (rule_key ov) seen
      then some (duplicate ov)
      else if not (ov.exchange == to_uppercase ov.exchange)
      then some (exchange_case ov)
      else if not (ov.market_type == to_lowercase ov.market_type)
      then some (market_case ov)
      else if not (ov.market_type == codes "spot" || ov.market_type == codes "perp")
      then some (unknown_market ov)
      else rest

  unfoldable pub validate : RetentionConfig → Option RetentionError
  unfolding check_overrides
  validate c = check_overrides [] c.overrides
