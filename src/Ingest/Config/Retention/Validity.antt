-- ===== src/Ingest/Config/Retention/Validity.antt =====
-- Which overrides `RetentionConfig::validate` of crates/cluster-ingest/src/config.rs lets through.
use trading_terminal_cluster.Common.{
  ℕ, List, [], ◌∷◌, map, Option, none, ◌≡◌, refl, ◌↔◌, ◌⊎◌, arith,
}
use trading_terminal_cluster.Common.Lists.{All}
use trading_terminal_cluster.Common.Eq.{nat_eq, list_eq, pair_eq, option_eq, list_beq_iff}
use trading_terminal_cluster.Common.Map.{
  set_insert, Distinct, Unseen, Unseen-set_insert, Unseen-nil,
}
use trading_terminal_cluster.Common.Text.{Text, codes}
use trading_terminal_cluster.Ingest.Config.Retention.{
  RetentionOverride, RetentionConfig, Slice, rule_key, check_overrides, validate,
}

module _ (to_uppercase to_lowercase : Text → Text) where
  -- An exchange in upper case, and a market that the sink writes.
  pub WellSpelt : RetentionOverride → Type 0
  WellSpelt ov =
      (ov.exchange ≡ to_uppercase ov.exchange)
      × (ov.market_type ≡ to_lowercase ov.market_type)
      × ((ov.market_type ≡ codes "spot") ⊎ (ov.market_type ≡ codes "perp"))

  check_overrides_iff :
      (seen : List (Slice × Option ℕ)) (ovs : List RetentionOverride)
      → (check_overrides to_uppercase to_lowercase seen ovs ≡ none)
        ↔ (Unseen seen (map rule_key ovs) × (Distinct (map rule_key ovs) × All WellSpelt ovs))
  unfolding check_overrides WellSpelt
  check_overrides_iff seen [] = (λ _. (_, (_, _)), λ _. refl)
  check_overrides_iff seen (ov ∷ ovs) = ground (
    arith,
    check_overrides_iff (set_insert (rule_key ov) seen) ovs,
    Unseen-set_insert (rule_key ov) seen (map rule_key ovs),
    list_beq_iff ov.exchange (to_uppercase ov.exchange),
    list_beq_iff ov.market_type (to_lowercase ov.market_type),
    list_beq_iff ov.market_type (codes "spot"),
    list_beq_iff ov.market_type (codes "perp"),
  )

  -- The retention settings are accepted exactly when no two overrides share exchange, market and
  -- interval, and each spells its exchange in upper case and its market `spot` or `perp`, in lower
  -- case. Any other setting gives an error.
  pub validate_iff :
      (c : RetentionConfig)
      → (validate to_uppercase to_lowercase c ≡ none)
        ↔ (Distinct (map rule_key c.overrides) × All WellSpelt c.overrides)
  unfolding validate
  validate_iff c =
      ground (arith, check_overrides_iff [] c.overrides, Unseen-nil (map rule_key c.overrides))
