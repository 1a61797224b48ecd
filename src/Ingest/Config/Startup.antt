-- ===== src/Ingest/Config/Startup.antt =====
-- What crates/cluster-ingest/src/main.rs has settled when it starts to serve: the environment is
-- applied, and the settings for tokens and timeframes are validated.
use trading_terminal_cluster.Common.{
  ℕ, ◌≤◌, List, [], ◌∷◌, ◌++◌, map, true, false, Option, none, some, ◌≡◌, refl, sym, ◌↔◌, ◌⊎◌, inl,
  inr, arith,
}
use trading_terminal_cluster.Common.Lists.{All}
use trading_terminal_cluster.Common.Tests.{Option-cases}
use trading_terminal_cluster.Common.Eq.{nat_eq, list_eq, pair_eq, option_eq, same_refl}
use trading_terminal_cluster.Common.Map.{
  member, set_insert, Distinct, Unseen, Unseen-set_insert, Unseen-nil,
}
use trading_terminal_cluster.Common.Text.{Text}
use trading_terminal_cluster.Api.Auth.{AuthState, accepts}
use trading_terminal_cluster.Api.Auth.Tokens.{accepts_iff}
use trading_terminal_cluster.Ingest.Config.Retention.{RetentionConfig, RetentionError, rule_key}
use trading_terminal_cluster.Ingest.Config.Retention
use trading_terminal_cluster.Ingest.Config.Retention.Validity.{WellSpelt, validate_iff}
use trading_terminal_cluster.Ingest.Config.{
  AuthError, AuthConfig, is_empty, add_token, switch, apply_env, validate, IngestConfig,
  TimeframesError, check_timeframes, validate_timeframes,
}

check_timeframes_iff :
    (seen tfs : List ℕ)
    → (check_timeframes seen tfs ≡ none)
      ↔ (Unseen seen tfs × (Distinct tfs × All (λ tf. 30 ≤ tf) tfs))
unfolding check_timeframes
check_timeframes_iff seen [] = (λ _. (_, (_, _)), λ _. refl)
check_timeframes_iff seen (tf ∷ tfs) =
    ground (arith, check_timeframes_iff (set_insert tf seen) tfs, Unseen-set_insert tf seen tfs)

-- The timeframes are accepted exactly when there is one at least, each is 30 seconds or more, and
-- none is listed twice. They need not be multiples of 30, nor have a table name of their own.
pub validate_timeframes_iff :
    (c : IngestConfig)
    → (validate_timeframes c ≡ none) ↔ (
        (is_empty c.timeframes_secs ≡ false)
        × Distinct c.timeframes_secs
        × All (λ tf. 30 ≤ tf) c.timeframes_secs)
unfolding validate_timeframes
validate_timeframes_iff c =
    ground (arith, check_timeframes_iff [] c.timeframes_secs, Unseen-nil c.timeframes_secs)

-- `main` gives up with an error of one of the three sections, or has the state that both servers
-- take.
pub data Started : Type 0 where
  bad_auth : AuthError → Started
  bad_timeframes : TimeframesError → Started
  bad_retention : RetentionError → Started
  serving : AuthState → Started

-- `AuthState::new`
abbrev pub auth_state : AuthConfig → AuthState
auth_state c = record { tokens = c.tokens; enabled = c.enabled }

module _ (to_uppercase to_lowercase : Text → Text) where
  unfoldable pub start :
      Option Text → Option Text → AuthConfig → IngestConfig → RetentionConfig → Started
  start token auth_enabled auth ingest retention =
      let applied = apply_env token auth_enabled auth in
      elim (validate applied) [
        | some e ↦ bad_auth e
        | none ↦ elim (validate_timeframes ingest) [
          | some e ↦ bad_timeframes e
          | none ↦ elim (Retention.validate to_uppercase to_lowercase retention) [
            | some e ↦ bad_retention e
            | none ↦ serving (auth_state applied)
          ]
        ]
      ]

member-last : (t : Text) (ts : List Text) → member t (ts ++ (t ∷ [])) ≡ true
unfolding member
member-last t [] = ground (arith, same_refl t)
member-last t (s ∷ ts) = ground (arith, member-last t ts)

apply_env-member :
    (c : AuthConfig) (t : Text) (auth_enabled : Option Text)
    → is_empty t ≡ false
    → member t (apply_env (some t) auth_enabled c).tokens ≡ true
unfolding apply_env add_token switch
apply_env-member c t none h = rw h (member-last t c.tokens)
apply_env-member c t (some v) h = rw h (member-last t c.tokens)

is_empty-member : (t : Text) (ts : List Text) → member t ts ≡ true → is_empty ts ≡ false
unfolding member is_empty
is_empty-member t [] h = absurd (ground arith)
is_empty-member t (s ∷ ts) h = refl

validate-member : (c : AuthConfig) (t : Text) → member t c.tokens ≡ true → validate c ≡ none
unfolding validate
validate-member c t h = ground (arith, is_empty-member t c.tokens h)

validate-guarded :
    (c : AuthConfig) → validate c ≡ none → (c.enabled ≡ false) ⊎ (is_empty c.tokens ≡ false)
unfolding validate
validate-guarded c h = ground arith

accepts-member :
    (state : AuthState) (t : Text) → member t state.tokens ≡ true → accepts state t ≡ true
accepts-member state t h = (accepts_iff state t).1 (inr h)

module _ (to_uppercase to_lowercase : Text → Text) where
  -- Settings whose timeframes and overrides are accepted, with a `CLUSTER_INGEST_TOKEN` that is not
  -- empty, let the service start, and it accepts this token, whatever tokens the file lists and
  -- whatever `CLUSTER_INGEST_AUTH_ENABLED` says.
  pub start-accepts :
      (t : Text) (auth_enabled : Option Text) (auth : AuthConfig) (ingest : IngestConfig)
      (retention : RetentionConfig)
      → is_empty t ≡ false
      → validate_timeframes ingest ≡ none
      → Retention.validate to_uppercase to_lowercase retention ≡ none
      → (state : AuthState) × (start to_uppercase to_lowercase
            (some t)
            auth_enabled
            auth
            ingest
            retention
          ≡ serving state)
        × (accepts state t ≡ true)
  unfolding start
  start-accepts t auth_enabled auth ingest retention h timeframes overrides =
      let known = apply_env-member auth t auth_enabled h in
      (
        auth_state (apply_env (some t) auth_enabled auth),
        rw
            (
              start,
              validate-member (apply_env (some t) auth_enabled auth) t known,
              timeframes,
              overrides,
            )
            refl,
        accepts-member _ t known,
      )

  -- A service that starts has at least one timeframe, no timeframe twice and none below 30 seconds;
  -- no two overrides with the same key, and each spelt with names it knows; and either no
  -- authentication or a token to compare with.
  pub start-checked :
      (token auth_enabled : Option Text) (auth : AuthConfig) (ingest : IngestConfig)
      (retention : RetentionConfig) (state : AuthState)
      → start to_uppercase to_lowercase token auth_enabled auth ingest retention ≡ serving state
      → (is_empty ingest.timeframes_secs ≡ false)
        × Distinct ingest.timeframes_secs
        × All (λ tf. 30 ≤ tf) ingest.timeframes_secs
        × Distinct (map rule_key retention.overrides)
        × All (WellSpelt to_uppercase to_lowercase) retention.overrides
        × ((state.enabled ≡ false) ⊎ (is_empty state.tokens ≡ false))
  unfolding start
  start-checked token auth_enabled auth ingest retention state h =
      elim (Option-cases (validate (apply_env token auth_enabled auth))) [
        | inr (e, failed) ↦ absurd (ground (arith, h, failed))
        | inl ok ↦ elim (Option-cases (validate_timeframes ingest)) [
          | inr (e, failed) ↦ absurd (ground (arith, h, ok, failed))
          | inl timeframes ↦
              elim (Option-cases (Retention.validate to_uppercase to_lowercase retention)) [
                | inr (e, failed) ↦ absurd (ground (arith, h, ok, timeframes, failed))
                | inl overrides ↦
                    let (some_tf, distinct, large) =
                      (validate_timeframes_iff ingest).0 timeframes in
                    let (keys, spelt) =
                      (validate_iff to_uppercase to_lowercase retention).0 overrides in
                    let applied = apply_env token auth_enabled auth in
                    let same : auth_state applied ≡ state =
                      ground (arith, h, ok, timeframes, overrides) in
                    (
                      some_tf,
                      distinct,
                      large,
                      keys,
                      spelt,
                      rw (sym same) (validate-guarded applied ok),
                    )
              ]
        ]
      ]
