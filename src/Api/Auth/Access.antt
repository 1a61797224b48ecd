-- ===== src/Api/Auth/Access.antt =====
-- Who passes `rest_auth_middleware` and `grpc_auth_interceptor` of crates/cluster-api/src/auth.rs.
use trading_terminal_cluster.Common.{
  ◌++◌, true, false, ◌↔◌, ◌⊎◌, inl, inr, Option, none, some, ◌≡◌, refl, arith,
}
use trading_terminal_cluster.Common.Tests.{Option-cases}
use trading_terminal_cluster.Common.Eq.{nat_eq, list_eq, list_beq_iff}
use trading_terminal_cluster.Common.Map.{member}
use trading_terminal_cluster.Common.Prefix.{strip_prefix_iff, starts_with_iff}
use trading_terminal_cluster.Common.Text.{Text, codes}
use trading_terminal_cluster.Api.Auth.{
  AuthState, accepts, extract_bearer, is_public_path, run_next, request, missing_token,
  invalid_token, header_text, rest_auth_middleware, grpc_auth_interceptor,
}
use trading_terminal_cluster.Api.Auth.Tokens.{accepts_iff}

-- The paths that need no token.
pub PublicPath : Text → Type 0
PublicPath path =
    (path ≡ codes "/health")
    ⊎ (((rest : Text) × (path ≡ codes "/health/" ++ rest)) ⊎ (path ≡ codes "/metrics"))

is_public_path_iff : (path : Text) → (is_public_path path ≡ true) ↔ PublicPath path
unfolding is_public_path PublicPath
is_public_path_iff path = ground (
  arith,
  starts_with_iff (codes "/health/") path,
  list_beq_iff path (codes "/health"),
  list_beq_iff path (codes "/metrics"),
)

extract_bearer_iff :
    (o : Option Text) (t : Text) → (extract_bearer o ≡ some t) ↔ (o ≡ some (codes "Bearer " ++ t))
unfolding extract_bearer
extract_bearer_iff none t = ground arith
extract_bearer_iff (some v) t = ground (arith, strip_prefix_iff (codes "Bearer ") v t)

module _ {H : Type 0} (to_str : H → Option Text) where
  -- The header is there, is text, and reads `Bearer ` followed by the token.
  pub Bearer : Option H → Text → Type 0
  Bearer header token = (v : H) × (header ≡ some v) × (to_str v ≡ some (codes "Bearer " ++ token))

  token_of_iff :
      (header : Option H) (token : Text)
      → (extract_bearer (header_text to_str header) ≡ some token) ↔ Bearer header token
  unfolding header_text Bearer
  token_of_iff none token = ground (arith, extract_bearer_iff none token)
  token_of_iff (some v) token = (
    λ h. (v, refl, (extract_bearer_iff (to_str v) token).0 h),
    λ (w, e, h). ground (arith, extract_bearer_iff (to_str v) token),
  )

  -- One of the tokens stands in the header.
  pub Known : AuthState → Option H → Type 0
  Known state header = (token : Text) × Bearer header token × (member token state.tokens ≡ true)

  abbrev token_of : Option H → Option Text
  token_of header = extract_bearer (header_text to_str header)

  Known-none :
      (state : AuthState) (header : Option H) → token_of header ≡ none → ¬ Known state header
  unfolding Known
  Known-none state header e (token, bearer, _) =
      absurd (ground (arith, (token_of_iff header token).1 bearer))

  Known-some :
      (state : AuthState) (header : Option H) (t : Text)
      → token_of header ≡ some t
      → state.enabled ≡ true
      → Known state header ↔ (accepts state t ≡ true)
  unfolding Known
  Known-some state header t e on = (
    λ (u, bearer, known).
        (accepts_iff state t).1 (inr (ground (arith, (token_of_iff header u).1 bearer))),
    λ ok. (t, (token_of_iff header t).0 e, ground (arith, (accepts_iff state t).0 ok)),
  )

  -- The REST middleware hands a request on if and only if its path is public, authentication is off,
  -- or its header is text that reads `Bearer ` and then one of the tokens; any other gets 401.
  pub rest_auth_middleware_iff :
      (state : AuthState) (path : Text) (header : Option H)
      → (rest_auth_middleware to_str state path header ≡ run_next)
        ↔ (PublicPath path ⊎ ((state.enabled ≡ false) ⊎ Known state header))
  unfolding rest_auth_middleware
  rest_auth_middleware_iff state path header =
      elim (Option-cases (extract_bearer (header_text to_str header))) [
        | inl e ↦ ground (arith, is_public_path_iff path, Known-none state header e)
        | inr (token, e) ↦ ground (
          arith,
          is_public_path_iff path,
          Known-some state header token e,
          accepts_iff state token,
        )
      ]

  pub Presented : Option H → Type 0
  Presented header = (token : Text) × Bearer header token

  Presented-none : (header : Option H) → token_of header ≡ none → ¬ Presented header
  unfolding Presented
  Presented-none header e (token, bearer) =
      absurd (ground (arith, (token_of_iff header token).1 bearer))

  Presented-some : (header : Option H) (t : Text) → token_of header ≡ some t → Presented header
  unfolding Presented
  Presented-some header t e = (t, (token_of_iff header t).0 e)

  -- The gRPC interceptor returns the request exactly when authentication is off or one of the tokens
  -- stands in the header. With authentication on, it returns `missing bearer token` exactly when the
  -- header has no bearer token, and `invalid bearer token` exactly when it has one but none of the
  -- known ones.
  pub grpc_auth_interceptor_iff :
      (state : AuthState) (header : Option H)
      → ((grpc_auth_interceptor to_str state header ≡ request)
          ↔ ((state.enabled ≡ false) ⊎ Known state header))
        × ((grpc_auth_interceptor to_str state header ≡ missing_token)
            ↔ ((state.enabled ≡ true) × (¬ Presented header)))
        × ((grpc_auth_interceptor to_str state header ≡ invalid_token)
            ↔ ((state.enabled ≡ true) × Presented header × (¬ Known state header)))
  unfolding grpc_auth_interceptor
  grpc_auth_interceptor_iff state header = elim (Option-cases (token_of header)) [
    | inl e ↦ ground (arith, Known-none state header e, Presented-none header e)
    | inr (token, e) ↦ ground (
      arith,
      Known-some state header token e,
      Presented-some header token e,
      accepts_iff state token,
    )
  ]
