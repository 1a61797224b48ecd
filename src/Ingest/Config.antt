-- ===== src/Ingest/Config.antt =====
-- crates/cluster-ingest/src/config.rs: what the settings decide. The environment is given by the
-- values of its variables.
pub mod Retention
pub mod Startup
use trading_terminal_cluster.Common.{
  ℕ, List, [], ◌∷◌, ◌++◌, Bool, true, false, ◌||◌, Option, none, some,
}
use trading_terminal_cluster.Common.Tests.{if◌then◌else◌, ltb, nat_beq}
use trading_terminal_cluster.Common.Eq.{◌==◌, nat_eq, list_eq}
use trading_terminal_cluster.Common.Map.{member, set_insert}
use trading_terminal_cluster.Common.Text.{Text, codes}

pub record AuthConfig : Type 0 where
  pub enabled : Bool
  pub tokens : List Text

unfoldable pub is_empty {ℓ} : {A : Type ℓ} → List A → Bool
is_empty [] = true
is_empty (_ ∷ _) = false

-- `CLUSTER_INGEST_TOKEN` is one more token.
unfoldable pub add_token : Option Text → AuthConfig → AuthConfig
unfolding is_empty
add_token none c = c
add_token (some t) c = if is_empty t then c else record c { tokens = c.tokens ++ (t ∷ []) }

-- `CLUSTER_INGEST_AUTH_ENABLED` overrides the switch.
unfoldable pub switch : Option Text → AuthConfig → AuthConfig
switch none c = c
switch (some v) c = record c {
  enabled = v == codes "1" || v == codes "true" || v == codes "TRUE" || v == codes "yes";
}

unfoldable pub apply_env : Option Text → Option Text → AuthConfig → AuthConfig
unfolding add_token switch
apply_env token auth_enabled c = switch auth_enabled (add_token token c)

pub data AuthError : Type 0 where
  no_tokens : AuthError

-- An error, or nothing.
unfoldable pub validate : AuthConfig → Option AuthError
unfolding is_empty
validate c = if c.enabled then (if is_empty c.tokens then some no_tokens else none) else none

-- The settings of a run that this module reads.
pub record IngestConfig : Type 0 where
  pub timeframes_secs : List ℕ
  pub enabled_exchanges : List Text

pub data TimeframesError : Type 0 where
  no_timeframes zero_timeframe : TimeframesError
  too_small duplicate : ℕ → TimeframesError

unfoldable pub check_timeframes : List ℕ → List ℕ → Option TimeframesError
check_timeframes seen [] = none
check_timeframes seen (tf ∷ tfs) =
    let rest = check_timeframes (set_insert tf seen) tfs in
    if nat_beq tf 0
    then some zero_timeframe
    else if ltb tf 30
    then some (too_small tf)
    else if member tf seen
    then some (duplicate tf)
    else rest

unfoldable pub validate_timeframes : IngestConfig → Option TimeframesError
unfolding check_timeframes is_empty
validate_timeframes c =
    if is_empty c.timeframes_secs then some no_timeframes else check_timeframes [] c.timeframes_secs

unfoldable pub is_exchange_enabled : IngestConfig → Text → Bool → Bool
unfolding is_empty
is_exchange_enabled c name per_section_enabled =
    if is_empty c.enabled_exchanges then per_section_enabled else member name c.enabled_exchanges

pub data RankBy : Type 0 where
  alphabetical volume_24h : RankBy

-- The settings of one exchange; times are in milliseconds but for the discovery's, in seconds.
pub record BinancePerpConfig : Type 0 where
  pub enabled : Bool
  pub include_quotes : List Text
  pub allow : List Text
  pub deny : List Text
  pub top_n : Option ℕ
  pub rank_by : RankBy
  pub discovery_poll_secs : ℕ
  pub ws_connect_timeout_ms : ℕ
  pub reconnect_backoff_min_ms : ℕ
  pub reconnect_backoff_max_ms : ℕ

unfoldable pub default_binance_perp_config : BinancePerpConfig
default_binance_perp_config = record {
  enabled = true;
  include_quotes = codes "USDT" ∷ codes "USDC" ∷ [];
  allow = [];
  deny = [];
  top_n = none;
  rank_by = alphabetical;
  discovery_poll_secs = 300;
  ws_connect_timeout_ms = 15_000;
  reconnect_backoff_min_ms = 500;
  reconnect_backoff_max_ms = 30_000;
}
