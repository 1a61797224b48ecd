-- ===== src/Ingest/Config/Retention/Governing.antt =====
-- What the TTL clauses of a table do to a slice: which of them delete its rows, after how many days.
use trading_terminal_cluster.Common.{
  ℕ, List, [], ◌∷◌, ◌++◌, append-nil, Bool, false, not, ◌&&◌, ◌||◌, Option, none, some, ◌≡◌, refl,
  ap, sym, arith, inl, inr,
}
use trading_terminal_cluster.Common.Tests.{if◌then◌else◌, ltb, Bool-cases, Option-cases}
use trading_terminal_cluster.Common.Eq.{◌==◌, nat_eq, list_eq, pair_eq, pair_beq_iff}
use trading_terminal_cluster.Common.Map.{
  lookup, insert, contains_key, contains_key-lookup, DistinctKeys, insert-DistinctKeys,
  lookup-absent,
}
use trading_terminal_cluster.Ingest.Config.Retention.{
  RetentionOverride, RetentionConfig, Slice, slice_of, is_other_table, is_none, add_rule, add_rules,
  Clause, delete_slice, to_cold, delete_default, delete_clauses, values, cold_clauses,
  default_clauses, clauses_for,
}
use trading_terminal_cluster.Ingest.Config.Retention.Rules.{governing, lookup-governing}

-- Does one of the overrides speak of the slice?
unfoldable pub is_excluded : Slice → List RetentionOverride → Bool
is_excluded slice [] = false
is_excluded slice (ov ∷ ovs) = slice_of ov == slice || is_excluded slice ovs

-- The days of the clauses whose condition the rows of a slice meet: those that delete, and those
-- that move to the cold volume.
unfoldable pub deletions : Slice → List Clause → List ℕ
unfolding is_excluded
deletions slice [] = []
deletions slice (delete_slice days ov ∷ cs) =
    let rest = deletions slice cs in if slice_of ov == slice then days ∷ rest else rest
deletions slice (to_cold days excluded ∷ cs) = deletions slice cs
deletions slice (delete_default days excluded ∷ cs) =
    let rest = deletions slice cs in if is_excluded slice excluded then rest else days ∷ rest

unfoldable pub moves : Slice → List Clause → List ℕ
unfolding is_excluded
moves slice [] = []
moves slice (to_cold days excluded ∷ cs) =
    let rest = moves slice cs in if is_excluded slice excluded then rest else days ∷ rest
moves slice (_ ∷ cs) = moves slice cs

-- Each rule stands under its own slice.
Owned : List (Slice × RetentionOverride) → Type 0
Owned [] = Unit
Owned ((slice, ov) ∷ m) = (slice ≡ slice_of ov) × Owned m

insert-Owned :
    (ov : RetentionOverride) (m : List (Slice × RetentionOverride))
    → Owned m
    → Owned (insert (slice_of ov) ov m)
unfolding Owned insert
insert-Owned ov [] r = (refl, _)
insert-Owned ov ((slice, rule) ∷ m) r = elim (Bool-cases (slice == slice_of ov)) [
  | inl hit ↦ rw hit ((pair_beq_iff slice (slice_of ov)).0 hit, r.1)
  | inr miss ↦ rw miss (r.0, insert-Owned ov m r.1)
]

-- No slice stands twice.
Ruled : List (Slice × RetentionOverride) → Type 0
Ruled m = Owned m × DistinctKeys m

insert-Ruled :
    (ov : RetentionOverride) (m : List (Slice × RetentionOverride))
    → Ruled m
    → Ruled (insert (slice_of ov) ov m)
unfolding Ruled
insert-Ruled ov m (owned, distinct) =
    (insert-Owned ov m owned, insert-DistinctKeys (slice_of ov) ov m distinct)

add_rule-Ruled :
    (ov : RetentionOverride) (m : List (Slice × RetentionOverride))
    → Ruled m
    → Ruled (add_rule ov m)
unfolding add_rule
add_rule-Ruled ov m r = elim (Option-cases (lookup (slice_of ov) m)) [
  | inl e ↦ rw (add_rule, e) (insert-Ruled ov m r)
  | inr (prev, e) ↦
      elim (Bool-cases (is_none prev.interval_seconds && not (is_none ov.interval_seconds))) [
        | inl finer ↦ rw (add_rule, e, finer) (insert-Ruled ov m r)
        | inr same ↦ rw (add_rule, e, same) r
      ]
]

add_rules-Ruled :
    (tf : ℕ) (ovs : List RetentionOverride) (m : List (Slice × RetentionOverride))
    → Ruled m
    → Ruled (add_rules tf ovs m)
unfolding add_rules
add_rules-Ruled tf [] m r = r
add_rules-Ruled tf (ov ∷ ovs) m r = elim (Bool-cases (is_other_table tf ov)) [
  | inl other ↦ rw other (add_rules-Ruled tf ovs m r)
  | inr ours ↦ rw ours (add_rules-Ruled tf ovs (add_rule ov m) (add_rule-Ruled ov m r))
]

deletions-append :
    (slice : Slice) (cs ds : List Clause)
    → deletions slice (cs ++ ds) ≡ deletions slice cs ++ deletions slice ds
unfolding deletions
deletions-append slice [] ds = refl
deletions-append slice (delete_slice days ov ∷ cs) ds = ground (arith, deletions-append slice cs ds)
deletions-append slice (to_cold days ex ∷ cs) ds = deletions-append slice cs ds
deletions-append slice (delete_default days ex ∷ cs) ds =
    ground (arith, deletions-append slice cs ds)

moves-append :
    (slice : Slice) (cs ds : List Clause)
    → moves slice (cs ++ ds) ≡ moves slice cs ++ moves slice ds
unfolding moves
moves-append slice [] ds = refl
moves-append slice (delete_slice days ov ∷ cs) ds = moves-append slice cs ds
moves-append slice (to_cold days ex ∷ cs) ds = ground (arith, moves-append slice cs ds)
moves-append slice (delete_default days ex ∷ cs) ds = moves-append slice cs ds

-- How long a rule keeps its rows; for ever when its days are zero.
unfoldable pub kept_for : Option RetentionOverride → ℕ → List ℕ
kept_for none default_days = if ltb 0 default_days then default_days ∷ [] else []
kept_for (some ov) default_days = if ltb 0 ov.days then ov.days ∷ [] else []

-- The days after which a row that no override governs turns cold.
unfoldable pub cold_after : ℕ → Option ℕ → List ℕ
cold_after default_days none = []
cold_after default_days (some cold) = if ltb 0 cold && ltb cold default_days then cold ∷ [] else []

deletions-slices :
    (slice : Slice) (m : List (Slice × RetentionOverride))
    → Ruled m
    → deletions slice (delete_clauses m) ≡ kept_for (lookup slice m) 0
unfolding deletions delete_clauses kept_for lookup Ruled Owned
deletions-slices slice [] r = refl
deletions-slices slice ((k, ov) ∷ m) ((k_is, owned), (absent, distinct)) =
    elim (Bool-cases (slice_of ov == slice)) [
      | inl hit ↦
          let none_left =
            lookup-absent slice m
              (rw (sym ((pair_beq_iff (slice_of ov) slice).0 hit), sym k_is) absent) in
          ground (
            arith,
            hit,
            deletions-slices slice m (owned, distinct),
            none_left,
            ap (λ x. x == slice) k_is,
          )
      | inr miss ↦
          ground
            (arith, miss, deletions-slices slice m (owned, distinct), ap (λ x. x == slice) k_is)
    ]

is_excluded-values :
    (slice : Slice) (m : List (Slice × RetentionOverride))
    → Owned m
    → is_excluded slice (values m) ≡ contains_key slice m
unfolding is_excluded values contains_key Owned
is_excluded-values slice [] o = refl
is_excluded-values slice ((k, ov) ∷ m) (k_is, owned) =
    ground (arith, is_excluded-values slice m owned, ap (λ x. x == slice) k_is)

deletions-default :
    (slice : Slice) (c : RetentionConfig) (excluded : List RetentionOverride)
    → deletions slice (default_clauses c excluded)
      ≡ (if is_excluded slice excluded then [] else kept_for none c.default_days)
unfolding deletions default_clauses cold_clauses kept_for
deletions-default slice c excluded = elim (Option-cases (c.move_to_cold_days)) [
  | inl e ↦ rw e (ground arith)
  | inr (cold, e) ↦ rw e (ground arith)
]

moves-default :
    (slice : Slice) (c : RetentionConfig) (excluded : List RetentionOverride)
    → moves slice (default_clauses c excluded)
      ≡ (if is_excluded slice excluded then [] else cold_after c.default_days c.move_to_cold_days)
unfolding moves default_clauses cold_clauses cold_after
moves-default slice c excluded = elim (Option-cases (c.move_to_cold_days)) [
  | inl e ↦ rw e (ground arith)
  | inr (cold, e) ↦ rw e (ground arith)
]

moves-slices :
    (slice : Slice) (m : List (Slice × RetentionOverride)) → moves slice (delete_clauses m) ≡ []
unfolding moves delete_clauses
moves-slices slice [] = refl
moves-slices slice ((k, ov) ∷ m) = ground (arith, moves-slices slice m)

unfoldable pub cold_for : Option RetentionOverride → RetentionConfig → List ℕ
unfolding cold_after
cold_for none c = cold_after c.default_days c.move_to_cold_days
cold_for (some _) c = []

no_rules : Ruled []
unfolding Ruled Owned
no_rules = (_, _)

deletions-rules :
    (c : RetentionConfig) (slice : Slice) (m : List (Slice × RetentionOverride))
    → Ruled m
    → (deletions slice (delete_clauses m ++ default_clauses c (values m))
        ≡ kept_for (lookup slice m) c.default_days)
      × (moves slice (delete_clauses m ++ default_clauses c (values m))
          ≡ cold_for (lookup slice m) c)
unfolding kept_for cold_for Ruled
deletions-rules c slice m r =
    rw
      (
        deletions-append,
        moves-append,
        deletions-slices slice m r,
        moves-slices slice m,
        deletions-default,
        moves-default,
        is_excluded-values slice m r.0,
      )
      (elim (Bool-cases (contains_key slice m)) [
        | inl there ↦
            let (ov, e) = contains_key-lookup slice m there in rw (there, e) (append-nil _, refl)
        | inr absent ↦ rw (absent, lookup-absent slice m absent) (refl, refl)
      ])

-- The rows of a slice of a table are deleted by one clause at most: after the days of the first
-- override for the slice and this table, or else of the first one for the slice and every table, or
-- else after the default days; and by none where those days are zero. They move to the cold volume
-- only if no override governs them, and then after the cold days, if these are at least one and
-- less than the default.
pub deletions-governing :
    (c : RetentionConfig) (tf : ℕ) (slice : Slice)
    → (deletions slice (clauses_for c tf)
        ≡ kept_for (governing tf slice c.overrides) c.default_days)
      × (moves slice (clauses_for c tf) ≡ cold_for (governing tf slice c.overrides) c)
unfolding clauses_for
deletions-governing c tf slice = rw (sym (lookup-governing tf slice c.overrides)) (
    deletions-rules c slice (add_rules tf c.overrides [])
      (add_rules-Ruled tf c.overrides [] no_rules))
