-- ===== src/Ingest/Config/Retention/Rules.antt =====
-- The rule that the overrides settle for a slice of a table: the first one for this table, else the
-- first one for every table.
use trading_terminal_cluster.Common.{
  ℕ, List, [], ◌∷◌, true, false, not, ◌&&◌, Option, none, some, ◌≡◌, refl, ap, sym, ◌∙◌, arith, inl,
  inr,
}
use trading_terminal_cluster.Common.Tests.{if◌then◌else◌, Bool-cases, Option-cases}
use trading_terminal_cluster.Common.Eq.{◌==◌, nat_eq, list_eq, pair_eq, option_eq, pair_beq_iff}
use trading_terminal_cluster.Common.Map.{lookup, lookup-insert}
use trading_terminal_cluster.Ingest.Config.Retention.{
  RetentionOverride, Slice, slice_of, is_other_table, is_none, add_rule, add_rules,
}

unfoldable pub first_for : Option ℕ → Slice → List RetentionOverride → Option RetentionOverride
first_for interval slice [] = none
first_for interval slice (ov ∷ ovs) =
    if ov.interval_seconds == interval && slice_of ov == slice
    then some ov
    else first_for interval slice ovs

unfoldable pub or_else {ℓ} : {A : Type ℓ} → Option A → Option A → Option A
or_else (some a) o = some a
or_else none o = o

unfoldable pub governing : ℕ → Slice → List RetentionOverride → Option RetentionOverride
unfolding first_for or_else
governing tf slice ovs = or_else (first_for (some tf) slice ovs) (first_for none slice ovs)

-- The rule for a slice that has one already, and for one that has none.
settled : ℕ → Slice → List RetentionOverride → Option RetentionOverride → Option RetentionOverride
unfolding governing is_none
settled tf slice ovs none = governing tf slice ovs
settled tf slice ovs (some prev) =
    if is_none prev.interval_seconds
    then or_else (first_for (some tf) slice ovs) (some prev)
    else some prev

-- What one more override makes of the rule of a slice.
refined : Slice → RetentionOverride → Option RetentionOverride → Option RetentionOverride
unfolding is_none
refined slice ov none = if slice_of ov == slice then some ov else none
refined slice ov (some prev) =
    if slice_of ov == slice
    then if is_none prev.interval_seconds && not (is_none ov.interval_seconds)
      then some ov
      else some prev
    else some prev

lookup-add_rule :
    (slice : Slice) (ov : RetentionOverride) (m : List (Slice × RetentionOverride))
    → lookup slice (add_rule ov m) ≡ refined slice ov (lookup slice m)
unfolding add_rule refined
lookup-add_rule slice ov m = elim (Option-cases (lookup (slice_of ov) m)) [
  | inl e ↦ ground (arith, lookup-insert (slice_of ov) slice ov m, pair_beq_iff (slice_of ov) slice)
  | inr (prev, e) ↦
      ground (arith, lookup-insert (slice_of ov) slice ov m, pair_beq_iff (slice_of ov) slice)
]

settled_skip :
    (tf : ℕ) (slice : Slice) (ov : RetentionOverride) (ovs : List RetentionOverride)
    (o : Option RetentionOverride)
    → is_other_table tf ov ≡ true
    → settled tf slice ovs o ≡ settled tf slice (ov ∷ ovs) o
unfolding settled is_other_table first_for
settled_skip tf slice ov ovs none h = ground (arith, Option-cases (ov.interval_seconds))
settled_skip tf slice ov ovs (some prev) h = ground (arith, Option-cases (ov.interval_seconds))

settled_take :
    (tf : ℕ) (slice : Slice) (ov : RetentionOverride) (ovs : List RetentionOverride)
    (o : Option RetentionOverride)
    → is_other_table tf ov ≡ false
    → settled tf slice ovs (refined slice ov o) ≡ settled tf slice (ov ∷ ovs) o
unfolding settled is_other_table first_for refined
settled_take tf slice ov ovs none h = ground (arith, Option-cases (ov.interval_seconds))
settled_take tf slice ov ovs (some prev) h = ground (arith, Option-cases (ov.interval_seconds))

settled_nil : (tf : ℕ) (slice : Slice) (o : Option RetentionOverride) → settled tf slice [] o ≡ o
unfolding settled first_for
settled_nil tf slice none = refl
settled_nil tf slice (some prev) = ground arith

lookup-settled :
    (tf : ℕ) (slice : Slice) (ovs : List RetentionOverride) (m : List (Slice × RetentionOverride))
    → lookup slice (add_rules tf ovs m) ≡ settled tf slice ovs (lookup slice m)
unfolding add_rules
lookup-settled tf slice [] m = sym (settled_nil tf slice (lookup slice m))
lookup-settled tf slice (ov ∷ ovs) m = elim (Bool-cases (is_other_table tf ov)) [
  | inl other ↦
      rw other (lookup-settled tf slice ovs m ∙ settled_skip tf slice ov ovs (lookup slice m) other)
  | inr ours ↦ rw ours (
      lookup-settled tf slice ovs (add_rule ov m)
      ∙ ap (settled tf slice ovs) (lookup-add_rule slice ov m)
      ∙ settled_take tf slice ov ovs (lookup slice m) ours)
]

-- After all the overrides a slice has its governing rule.
pub lookup-governing :
    (tf : ℕ) (slice : Slice) (ovs : List RetentionOverride)
    → lookup slice (add_rules tf ovs []) ≡ governing tf slice ovs
unfolding settled lookup
lookup-governing tf slice ovs = lookup-settled tf slice ovs []
