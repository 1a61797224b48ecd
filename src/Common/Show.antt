-- ===== src/Common/Show.antt =====
-- `Display` of the integers that the program prints. Twenty digits are enough for 64 bits.
use native.Mathlib.Nat.{pow-suc}
use trading_terminal_cluster.Common.{
  ℕ, zero, suc, ◌+◌, ◌-◌, ◌*◌, ◌/◌, ◌%◌, ◌^◌, ◌<◌, [], ◌∷◌, ◌≡◌, ap, ◌∙◌, arith, inl, inr,
}
use trading_terminal_cluster.Common.Tests.{if◌then◌else◌, ltb, lt→ltb, ltb→lt, Bool-cases}
use trading_terminal_cluster.Common.Int.{ℤ, pos, negsuc}
use trading_terminal_cluster.Common.Text.{Text}

-- The digits of `n` before those of `s`.
unfoldable pub show_from : ℕ → ℕ → Text → Text
show_from zero n s = s
show_from (suc fuel) n s =
    let last = b'0' + n % 10 in
    let rest = show_from fuel (n / 10) (last ∷ s) in if ltb n 10 then last ∷ s else rest

unfoldable pub show_ℕ : ℕ → Text
unfolding show_from
show_ℕ n = show_from 20 n []

unfoldable pub show_ℤ : ℤ → Text
unfolding show_ℕ
show_ℤ (pos n) = show_ℕ n
show_ℤ (negsuc n) = b'-' ∷ show_ℕ (suc n)

-- The number that digits spell behind `n`.
abbrev pub digits_value : ℕ → Text → ℕ
digits_value n [] = n
digits_value n (c ∷ s) = digits_value (n * 10 + (c - b'0')) s

value-show_from :
    (fuel n : ℕ) (s : Text)
    → n < 10 ^ suc fuel
    → digits_value 0 (show_from (suc fuel) n s) ≡ digits_value n s
unfolding show_from
value-show_from zero n s h = rw (lt→ltb n 10 h) (ap (λ m. digits_value m s) (omega arith))
value-show_from (suc fuel) n s h = elim (Bool-cases (ltb n 10)) [
  | inl last ↦ rw last (ap (λ m. digits_value m s) (omega (arith, ltb→lt n 10 last)))
  | inr more ↦ rw more (
      value-show_from fuel (n / 10) ((b'0' + n % 10) ∷ s) (omega (arith, h, pow-suc 10 (suc fuel)))
      ∙ ap (λ m. digits_value m s) (omega arith))
]

pub value-show_ℕ : (n : ℕ) → n < 10 ^ 20 → digits_value 0 (show_ℕ n) ≡ n
unfolding show_ℕ
value-show_ℕ n h = value-show_from 19 n [] h
