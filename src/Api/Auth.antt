-- ===== src/Api/Auth.antt =====
-- crates/cluster-api/src/auth.rs: bearer tokens. A text is the list of its bytes. The header's value
-- and its `to_str` belong to the HTTP libraries and are parameters.
use trading_terminal_cluster.Common.{
  ℕ, List, [], ◌∷◌, Bool, true, false, ◌||◌, Option, none, some, ◌≢◌,
}
use Prim.Native.Nat.{bit_or, bit_xor}
use trading_terminal_cluster.Common.Lists.{length}
use trading_terminal_cluster.Common.Tests.{if◌then◌else◌, nat_beq}
use trading_terminal_cluster.Common.Eq.{◌==◌, nat_eq, list_eq}
use trading_terminal_cluster.Common.Text.{Text, codes, strip_prefix, starts_with}
pub mod Tokens
pub mod Access

pub record AuthState : Type 0 where
  pub tokens : List Text
  pub enabled : Bool

unfoldable pub disabled : AuthState
disabled = record { tokens = []; enabled = false }

-- The `or` over the exclusive `or` of the bytes that stand at the same place.
unfoldable pub differences : Text → Text → ℕ → ℕ
differences (x ∷ a) (y ∷ b) diff = differences a b (bit_or diff (bit_xor x y))
differences _ _ diff = diff

unfoldable pub ct_eq : Text → Text → Bool
unfolding differences
ct_eq a b = if nat_beq (length a) (length b) then nat_beq (differences a b 0) 0 else false

unfoldable pub any_token : List Text → Text → Bool
unfolding ct_eq
any_token [] presented = false
any_token (valid ∷ tokens) presented = ct_eq valid presented || any_token tokens presented

unfoldable pub accepts : AuthState → Text → Bool
unfolding any_token
accepts state presented = if state.enabled then any_token state.tokens presented else true

unfoldable pub extract_bearer : Option Text → Option Text
extract_bearer none = none
extract_bearer (some v) = strip_prefix (codes "Bearer ") v

unfoldable pub is_public_path : Text → Bool
is_public_path path =
    path == codes "/health" || starts_with (codes "/health/") path || path == codes "/metrics"

-- What the middleware does with a request: hand it on, or answer 401.
pub data Verdict : Type 0 where
  run_next unauthenticated : Verdict

-- What the interceptor returns: the request, or one of two errors.
pub data Intercepted : Type 0 where
  request missing_token invalid_token : Intercepted

module _ {H : Type 0} (to_str : H → Option Text) where
  unfoldable pub header_text : Option H → Option Text
  header_text none = none
  header_text (some v) = to_str v

  unfoldable pub rest_auth_middleware : AuthState → Text → Option H → Verdict
  unfolding is_public_path extract_bearer accepts header_text
  rest_auth_middleware state path header =
      if is_public_path path
      then run_next
      else if state.enabled
      then (elim (extract_bearer (header_text header)) [
        | none ↦ unauthenticated
        | some token ↦ if accepts state token then run_next else unauthenticated
      ])
      else run_next

  unfoldable pub grpc_auth_interceptor : AuthState → Option H → Intercepted
  unfolding extract_bearer accepts header_text
  grpc_auth_interceptor state header =
      if state.enabled
      then (elim (extract_bearer (header_text header)) [
        | none ↦ missing_token
        | some token ↦ if accepts state token then request else invalid_token
      ])
      else request
