-- ===== src/Api/Auth/Tokens.antt =====
-- `ct_eq` and `accepts` of crates/cluster-api/src/auth.rs: the comparison of tokens that does not
-- stop at the first difference.
use Prim.Native.Nat.{bit_or, bit_xor}
use trading_terminal_cluster.Common.{ℕ, List, [], ◌∷◌, true, false, ◌↔◌, ◌⊎◌, ◌≡◌, refl, arith}
use trading_terminal_cluster.Common.Digits.{bit_or_zero, bit_xor_zero}
use trading_terminal_cluster.Common.Lists.{length}
use trading_terminal_cluster.Common.Eq.{nat_eq, list_eq, list_beq_iff}
use trading_terminal_cluster.Common.Map.{member}
use trading_terminal_cluster.Common.Text.{Text}
use trading_terminal_cluster.Api.Auth.{AuthState, differences, ct_eq, any_token, accepts}

differences_zero :
    (a b : Text) (d : ℕ) → length a ≡ length b → differences a b d ≡ 0 → (d ≡ 0) × (a ≡ b)
unfolding differences
differences_zero [] [] d _ h = (h, refl)
differences_zero [] (y ∷ b) d len h = absurd (omega arith)
differences_zero (x ∷ a) [] d len h = absurd (omega arith)
differences_zero (x ∷ a) (y ∷ b) d len h =
    let (both, tail) = differences_zero a b (bit_or d (bit_xor x y)) (omega arith) h in
    let (start, differ) = (bit_or_zero d (bit_xor x y)).0 both in
    let head = (bit_xor_zero x y).0 differ in (start, cc)

differences_self : (a : Text) → differences a a 0 ≡ 0
unfolding differences
differences_self [] = refl
differences_self (x ∷ a) =
    rw ((bit_xor_zero x x).1 refl, (bit_or_zero 0 0).1 (refl, refl), differences_self a)

ct_eq_self : (a : Text) → ct_eq a a ≡ true
unfolding ct_eq
ct_eq_self a = ground (arith, differences_self a)

ct_eq_iff : (a b : Text) → (ct_eq a b ≡ true) ↔ (a ≡ b)
unfolding ct_eq
ct_eq_iff a b =
    (λ h. (differences_zero a b 0 (ground arith) (ground arith)).1, λ e. rw (e, ct_eq_self b))

-- A token is accepted when it is one of the list.
pub any_token-member : (tokens : List Text) (t : Text) → any_token tokens t ≡ member t tokens
unfolding any_token member
any_token-member [] t = refl
any_token-member (valid ∷ tokens) t =
    ground (arith, any_token-member tokens t, ct_eq_iff valid t, list_beq_iff valid t)

pub accepts_iff :
    (state : AuthState) (t : Text)
    → (accepts state t ≡ true) ↔ ((state.enabled ≡ false) ⊎ (member t state.tokens ≡ true))
unfolding accepts
accepts_iff state t = ground (arith, any_token-member state.tokens t)
