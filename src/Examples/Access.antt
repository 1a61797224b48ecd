-- ===== src/Examples/Access.antt =====
-- Concrete runs of crates/cluster-api/src/auth.rs and crates/cluster-ingest/src/config.rs.
use trading_terminal_cluster.Common.{
  ◌≤◌, [], ◌∷◌, map, true, false, Option, none, some, ◌≡◌, refl, ◌↔◌, ◌⊎◌,
}
use trading_terminal_cluster.Common.Lists.{All}
use trading_terminal_cluster.Common.Eq.{nat_eq, list_eq, pair_eq, option_eq}
use trading_terminal_cluster.Common.Map.{Distinct, member, set_insert}
use trading_terminal_cluster.Common.Text.{Text, codes, starts_with, strip_prefix}
use trading_terminal_cluster.Api.Auth.{
  AuthState, accepts, run_next, request, missing_token, invalid_token, rest_auth_middleware,
  grpc_auth_interceptor, extract_bearer, header_text, is_public_path, any_token, ct_eq, differences,
}
use trading_terminal_cluster.Api.Auth.Access.{
  PublicPath, Known, Presented, rest_auth_middleware_iff, grpc_auth_interceptor_iff,
}
use trading_terminal_cluster.Ingest.Config
use trading_terminal_cluster.Ingest.Config.{
  AuthConfig, IngestConfig, validate_timeframes, is_empty, check_timeframes,
}
use trading_terminal_cluster.Ingest.Config.Startup.{
  serving, start, validate_timeframes_iff, start-checked,
}
use trading_terminal_cluster.Ingest.Config.Retention
use trading_terminal_cluster.Ingest.Config.Retention.{
  RetentionOverride, RetentionConfig, rule_key, clauses_for, ttl_clause_for,
}
use trading_terminal_cluster.Ingest.Config.Retention.Rules.{governing}
use trading_terminal_cluster.Ingest.Config.Retention.Governing.{
  deletions, moves, kept_for, cold_for, deletions-governing,
}
use trading_terminal_cluster.Ingest.Config.Retention.Validity.{WellSpelt, validate_iff}

abbrev guarded : AuthState
guarded = record { tokens = codes "first" ∷ codes "second" ∷ []; enabled = true }

abbrev plain : Text → Option Text
plain v = some v

abbrev second_header : Option Text
second_header = some (codes "Bearer second")

second_passes :
    rest_auth_middleware plain guarded (codes "/v1/system/metrics") second_header ≡ run_next
unfolding rest_auth_middleware extract_bearer header_text is_public_path accepts any_token ct_eq
    differences starts_with strip_prefix
second_passes = refl

rest_auth_middleware_iff_example :
    (rest_auth_middleware plain guarded (codes "/v1/system/metrics") second_header ≡ run_next) ↔ (
      PublicPath (codes "/v1/system/metrics")
      ⊎ ((guarded.enabled ≡ false) ⊎ Known plain guarded second_header))
rest_auth_middleware_iff_example =
    rest_auth_middleware_iff plain guarded (codes "/v1/system/metrics") second_header

grpc_auth_interceptor_iff_example :
    ((grpc_auth_interceptor plain guarded (some (codes "Bearer third")) ≡ request)
      ↔ ((guarded.enabled ≡ false) ⊎ Known plain guarded (some (codes "Bearer third"))))
    × ((grpc_auth_interceptor plain guarded (some (codes "Bearer third")) ≡ missing_token)
        ↔ ((guarded.enabled ≡ true) × (¬ Presented plain (some (codes "Bearer third")))))
    × ((grpc_auth_interceptor plain guarded (some (codes "Bearer third")) ≡ invalid_token) ↔ (
        (guarded.enabled ≡ true)
        × Presented plain (some (codes "Bearer third"))
        × (¬ Known plain guarded (some (codes "Bearer third")))))
grpc_auth_interceptor_iff_example =
    grpc_auth_interceptor_iff plain guarded (some (codes "Bearer third"))

abbrev three_timeframes : IngestConfig
three_timeframes = record { timeframes_secs = 60 ∷ 31 ∷ 3600 ∷ []; enabled_exchanges = [] }

validate_timeframes_iff_example : (validate_timeframes three_timeframes ≡ none) ↔ (
    (is_empty three_timeframes.timeframes_secs ≡ false)
    × Distinct three_timeframes.timeframes_secs
    × All (λ tf. 30 ≤ tf) three_timeframes.timeframes_secs)
validate_timeframes_iff_example = validate_timeframes_iff three_timeframes

-- Two weeks for one market, one day for its 30-second table.
abbrev two_rules : RetentionConfig
two_rules = record {
  default_days = 7;
  move_to_cold_days = some 3;
  apply_on_start = true;
  overrides =
      record {
        exchange = codes "BINANCEF";
        market_type = codes "perp";
        interval_seconds = none;
        days = 14;
      }
      ∷ record {
        exchange = codes "BINANCEF";
        market_type = codes "perp";
        interval_seconds = some 30;
        days = 1;
      }
      ∷ [];
}

abbrev futures : Text × Text
futures = (codes "BINANCEF", codes "perp")

deletions-governing_example :
    (deletions futures (clauses_for two_rules 30)
      ≡ kept_for (governing 30 futures two_rules.overrides) 7)
    × (moves futures (clauses_for two_rules 30)
        ≡ cold_for (governing 30 futures two_rules.overrides) two_rules)
deletions-governing_example = deletions-governing two_rules 30 futures

abbrev as_is : Text → Text
as_is s = s

validate_iff_example : (Retention.validate as_is as_is two_rules ≡ none) ↔ (
    Distinct (map rule_key two_rules.overrides) × All (WellSpelt as_is as_is) two_rules.overrides)
validate_iff_example = validate_iff as_is as_is two_rules

abbrev open_auth : AuthConfig
open_auth = record { enabled = false; tokens = [] }

abbrev started_state : AuthState
started_state = record { tokens = codes "secret" ∷ []; enabled = true }

starts :
    start as_is as_is
      (some (codes "secret"))
      (some (codes "yes"))
      open_auth
      three_timeframes
      two_rules
    ≡ serving started_state
unfolding start Config.apply_env Config.add_token Config.switch Config.validate validate_timeframes
    check_timeframes Retention.validate Retention.check_overrides is_empty member set_insert
starts = refl

start-checked_example :
    (is_empty three_timeframes.timeframes_secs ≡ false)
    × Distinct three_timeframes.timeframes_secs
    × All (λ tf. 30 ≤ tf) three_timeframes.timeframes_secs
    × Distinct (map rule_key two_rules.overrides)
    × All (WellSpelt as_is as_is) two_rules.overrides
    × ((started_state.enabled ≡ false) ⊎ (is_empty started_state.tokens ≡ false))
start-checked_example =
    start-checked as_is as_is (some (codes "secret")) (some (codes "yes")) open_auth
      three_timeframes two_rules started_state starts
