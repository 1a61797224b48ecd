-- ===== src/Scale/Value.antt =====
-- The arithmetic of `parse_scaled` on the digits of a decimal.
use mathlib.Core.Path.{subst}
use native.Mathlib.Nat.{mul-le-mul_right, pow-suc, mul_comm}
use trading_terminal_cluster.Common.{
  ℕ, zero, suc, ◌+◌, ◌-◌, ◌*◌, ◌^◌, ◌<◌, ◌≤◌, [], ◌∷◌, ◌++◌, ◌≡◌, refl, sym, ap, ◌∙◌, arith, true,
  Bool, ◌&&◌,
}
use trading_terminal_cluster.Common.Lists.{length, replicate}
use trading_terminal_cluster.Common.Text.{Text, is_digit, all_chars}
use trading_terminal_cluster.Scale.{digits_value}

ten_suc : (n : ℕ) → 10 ^ suc n ≡ 10 * 10 ^ n
ten_suc n = pow-suc 10 n ∙ mul_comm (10 ^ n) 10

pub ten-add : (m n : ℕ) → 10 ^ (m + n) ≡ 10 ^ m * 10 ^ n
ten-add zero n = ap (λ k. 10 ^ k) (omega arith) ∙ one_mul (10 ^ n)
  where
    one_mul : (p : ℕ) → p ≡ 10 ^ 0 * p
    one_mul p = omega arith
ten-add (suc m) n =
    ap (λ k. 10 ^ k) (omega arith)
    ∙ ten_suc (m + n)
    ∙ ap (λ x. 10 * x) (ten-add m n)
    ∙ omega arith
    ∙ ap (λ x. x * 10 ^ n) (sym (ten_suc m))

pub ten_pos : (n : ℕ) → 1 ≤ 10 ^ n
ten_pos zero = omega arith
ten_pos (suc n) = omega (arith, ten_suc n, ten_pos n)

pub ten_split : (k n : ℕ) → k ≤ n → 10 ^ n ≡ 10 ^ k * 10 ^ (n - k)
ten_split k n h = ap (λ m. 10 ^ m) (omega arith) ∙ ten-add k (n - k)

pub value-append :
    (n : ℕ) (s t : Text) → digits_value n (s ++ t) ≡ digits_value (digits_value n s) t
value-append n [] t = refl
value-append n (c ∷ s) t = value-append (n * 10 + (c - b'0')) s t

shift_step : (n d p q v : ℕ) → q ≡ 10 * p → (n * 10 + d) * p + v ≡ n * q + (d * p + v)
shift_step n d p q v h = omega arith ∙ ap (λ q. n * q + (d * p + v)) (sym h)

pub value-shift : (n : ℕ) (s : Text) → digits_value n s ≡ n * 10 ^ length s + digits_value 0 s
value-shift n [] = omega arith
value-shift n (c ∷ s) =
    value-shift (n * 10 + (c - b'0')) s
    ∙ shift_step n (c - b'0') (10 ^ length s) (10 ^ suc (length s)) (digits_value 0 s)
        (ten_suc (length s))
    ∙ ap (λ v. n * 10 ^ suc (length s) + v)
        (sym (value-shift (c - b'0') s) ∙ ap (λ d. digits_value d s) (omega arith))

pub value_zeros : (n k : ℕ) → digits_value n (replicate k b'0') ≡ n * 10 ^ k
value_zeros n zero = omega arith
value_zeros n (suc k) = value_zeros (n * 10 + 0) k ∙ omega arith ∙ ap (λ q. n * q) (sym (ten_suc k))

lt_step : (d p q v : ℕ) → d ≤ 9 → v < p → q ≡ 10 * p → d * p + v < q
lt_step d p q v hd hv hq = omega (arith, mul-le-mul_right p hd)

digit_small : (c : ℕ) (b : Bool) → (is_digit c && b) ≡ true → c - b'0' ≤ 9
unfolding is_digit
digit_small c b h = ground arith

digits_rest : (c : ℕ) (b : Bool) → (is_digit c && b) ≡ true → b ≡ true
digits_rest c b h = ground arith

pub value-lt : (s : Text) → all_chars is_digit s ≡ true → digits_value 0 s < 10 ^ length s
unfolding all_chars is_digit
value-lt [] h = omega arith
value-lt (c ∷ s) h =
    subst (λ v. v < 10 ^ suc (length s))
      (sym (value-shift (c - b'0') s) ∙ ap (λ d. digits_value d s) (omega arith))
      (lt_step (c - b'0') (10 ^ length s) (10 ^ suc (length s)) (digits_value 0 s)
        (digit_small c (all_chars is_digit s) h)
        (value-lt s (digits_rest c (all_chars is_digit s) h)) (ten_suc (length s)))
