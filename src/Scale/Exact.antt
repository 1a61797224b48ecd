-- ===== src/Scale/Exact.antt =====
-- The scale that `count_decimals_trimmed` of crates/exchange-binance/src/scale.rs finds loses nothing.
use mathlib.Core.Path.{subst}
use native.Mathlib.Nat.{lt_of_mul-lt-mul_right}
use trading_terminal_cluster.Common.{
  ℕ, suc, ◌+◌, ◌-◌, ◌*◌, ◌^◌, ◌<◌, ◌≤◌, [], ◌∷◌, ◌++◌, ◌≡◌, refl, sym, ap, ◌∙◌, arith, none, some,
  inl, inr,
}
use trading_terminal_cluster.Common.Lists.{length, replicate, length-append, length-replicate}
use trading_terminal_cluster.Common.Int.{ℤ, pos}
use trading_terminal_cluster.Common.Machine.{max_i64}
use trading_terminal_cluster.Common.Tests.{Option-cases}
use trading_terminal_cluster.Common.Text.{Text, trim, trim_end, split_once}
use trading_terminal_cluster.Scale.{
  ok, digits_value, split_parts, parse_parts, parse_scaled, is_empty, starts_with_minus,
  empty_number, negative_number, count_decimals_trimmed,
}
use trading_terminal_cluster.Scale.Value.{ten_pos, ten-add, ten_split, value-append, value_zeros}
use trading_terminal_cluster.Scale.Sound.{Floor, parts_Scaled, parts_digits, head_inv}
use trading_terminal_cluster.Scale.Trimmed.{
  is_zero, trim_zeros, trim_end-digits, trim_end-point, split_once-append, counted, count_found,
  counted-kept,
}

floor_unique : (v u p : ℕ) → 1 ≤ p → v * p ≤ u * p → u * p < suc v * p → v ≡ u
floor_unique v u p h low high =
    omega (arith, lt_of_mul-lt-mul_right p high, lt_of_mul-lt-mul_right p above)
  where
    above : v * p < suc u * p
    above = omega (arith, low, h)

factors : (n a b c d : ℕ) → b ≡ c * d → n * a * b ≡ n * d * (c * a)
factors n a b c d e = ap (λ b. n * a * b) e ∙ omega arith

-- The digits times ten to the scale, as a multiple of ten to the number of decimals.
whole_multiple :
    (int kept : Text) (m scale : ℕ)
    → length kept ≤ scale
    → digits_value 0 (int ++ (kept ++ replicate m b'0')) * 10 ^ scale
      ≡ digits_value 0 (int ++ kept) * 10 ^ (scale - length kept) * 10 ^ (length kept + m)
whole_multiple int kept m scale h =
    ap (λ n. n * 10 ^ scale)
      (value-append 0 int (kept ++ replicate m b'0')
        ∙ value-append (digits_value 0 int) kept (replicate m b'0')
        ∙ ap (λ n. digits_value n (replicate m b'0')) (sym (value-append 0 int kept))
        ∙ value_zeros (digits_value 0 (int ++ kept)) m)
    ∙ factors (digits_value 0 (int ++ kept)) (10 ^ m) (10 ^ scale) (10 ^ length kept)
        (10 ^ (scale - length kept)) (ten_split (length kept) scale h)
    ∙ ap (λ n. digits_value 0 (int ++ kept) * 10 ^ (scale - length kept) * n)
        (sym (ten-add (length kept) m))

exact_step : (v u p q d : ℕ) → 1 ≤ p → d ≡ u * q → q ≡ p → v * p ≤ d → d < suc v * p → v * p ≡ d
exact_step v u p q d pos_p hd hq low high =
    ap (λ v. v * p)
      (floor_unique v u p pos_p (subst (λ d. v * p ≤ d) same low)
        (subst (λ d. d < suc v * p) same high))
    ∙ sym same
  where
    same : d ≡ u * p
    same = hd ∙ ap (λ q. u * q) hq

-- A floor of a whole number is that number.
Floor-exact :
    (int kept frac : Text) (m scale v : ℕ)
    → frac ≡ kept ++ replicate m b'0'
    → length kept ≤ scale
    → Floor int frac scale v
    → v * 10 ^ length frac ≡ digits_value 0 (int ++ frac) * 10 ^ scale
Floor-exact int kept frac m scale v parts len (low, high) =
    exact_step v (digits_value 0 (int ++ kept) * 10 ^ (scale - length kept)) (10 ^ length frac)
      (10 ^ (length kept + m)) (digits_value 0 (int ++ frac) * 10 ^ scale) (ten_pos (length frac))
      (ap (λ f. digits_value 0 (int ++ f) * 10 ^ scale) parts ∙ whole_multiple int kept m scale len)
      (ap (λ n. 10 ^ n)
        (sym (
          ap length parts
          ∙ length-append kept _
          ∙ ap (λ n. length kept + n) (length-replicate m b'0'))))
      low high

-- `z` is `int.frac * 10 ^ scale`, nothing rounded.
abbrev pub Exact : Text × Text → ℕ → ℤ → Type 0
Exact (int, frac) scale z =
    (v : ℕ) × (z ≡ pos v) × (v * 10 ^ length frac ≡ digits_value 0 (int ++ frac) * 10 ^ scale)

no_room : (scale a b : ℕ) → scale ≡ 255 → 10 ^ scale ≤ max_i64 → a ≡ b
no_room scale a b e h = too_large (subst (λ n. 10 ^ n ≤ max_i64) e h)
  where
    too_large : 10 ^ 255 ≤ max_i64 → a ≡ b
    too_large h = omega (arith, h)

found-Exact :
    (s before frac : Text) (z : ℤ)
    → split_once b'.' s ≡ some (before, frac)
    → parse_parts before frac (count_decimals_trimmed s) ≡ ok z
    → Exact (before, frac) (count_decimals_trimmed s) z
found-Exact s before frac z e h =
    let (digits, fits) = parts_digits before frac (count_decimals_trimmed s) z h in
    let (v, is_v, _, floor) = parts_Scaled before frac (count_decimals_trimmed s) z h in
    let (m, parts) = trim_zeros frac in
    let kept = trim_end is_zero frac in
    let count : count_decimals_trimmed s ≡ counted before (before ++ (b'.' ∷ kept)) =
      count_found s before frac e
      ∙ ap (counted before) (
          ap (trim_end is_zero) (split_once-append b'.' s before frac e)
          ∙ trim_end-point before frac) in
    (
      v,
      is_v,
      elim (counted-kept before kept (trim_end-digits frac digits)) [
        | inl enough ↦
            Floor-exact before kept frac m (count_decimals_trimmed s) v parts
              (subst (λ n. length kept ≤ n) (sym count) enough) floor
        | inr full ↦ no_room (count_decimals_trimmed s) _ _ (count ∙ full) fits
      ],
    )

whole-Exact : (s : Text) (scale : ℕ) (z : ℤ) → parse_parts s [] scale ≡ ok z → Exact (s, []) scale z
whole-Exact s scale z h =
    let (v, is_v, _, floor) = parts_Scaled s [] scale z h in
    (v, is_v, Floor-exact s [] [] 0 scale v refl (omega arith) floor)

accepted :
    (s : Text) (scale : ℕ) (z : ℤ)
    → trim s ≡ s
    → parse_scaled s scale ≡ ok z
    → parse_parts (split_parts s).0 (split_parts s).1 scale ≡ ok z
unfolding parse_scaled
accepted s scale z same h =
    subst (λ t. parse_parts (split_parts t).0 (split_parts t).1 scale ≡ ok z) same
      (head_inv (is_empty (trim s)) (starts_with_minus (trim s)) empty_number negative_number _ z h)

split_parts-none : (s : Text) → split_once b'.' s ≡ none → split_parts s ≡ (s, [])
unfolding split_parts
split_parts-none s e = rw (e, split_parts) refl

split_parts-some : (s : Text) (p : Text × Text) → split_once b'.' s ≡ some p → split_parts s ≡ p
unfolding split_parts
split_parts-some s p e = rw (e, split_parts) refl

-- A text without spaces around it that is accepted at the scale that is counted in it is read as the
-- decimal that it spells, times ten to that scale, with nothing rounded.
pub parse_scaled-Exact :
    (s : Text) (z : ℤ)
    → trim s ≡ s
    → parse_scaled s (count_decimals_trimmed s) ≡ ok z
    → Exact (split_parts s) (count_decimals_trimmed s) z
parse_scaled-Exact s z same h = elim (Option-cases (split_once b'.' s)) [
  | inl e ↦
      subst (λ p. Exact p (count_decimals_trimmed s) z) (sym (split_parts-none s e))
        (whole-Exact s (count_decimals_trimmed s) z (
          subst (λ p. parse_parts p.0 p.1 (count_decimals_trimmed s) ≡ ok z) (split_parts-none s e)
            (accepted s (count_decimals_trimmed s) z same h)))
  | inr ((before, frac), e) ↦
      subst (λ p. Exact p (count_decimals_trimmed s) z) (sym (split_parts-some s (before, frac) e))
        (found-Exact s before frac z e (
          subst (λ p. parse_parts p.0 p.1 (count_decimals_trimmed s) ≡ ok z)
            (split_parts-some s (before, frac) e) (accepted s (count_decimals_trimmed s) z same h)))
]
