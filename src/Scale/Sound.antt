-- ===== src/Scale/Sound.antt =====
-- What `parse_scaled` of crates/exchange-binance/src/scale.rs returns: the decimal times a power
-- of ten, rounded down.
use native.Mathlib.Nat.{mul-le-mul_right}
use trading_terminal_cluster.Common.{
  ℕ, zero, suc, ◌+◌, ◌-◌, ◌*◌, ◌^◌, ◌<◌, ◌≤◌, [], ◌∷◌, ◌++◌, ◌≡◌, refl, sym, ap, ◌∙◌, arith, true,
  false, Bool, ◌&&◌, ◌||◌, not,
}
use trading_terminal_cluster.Common.Lists.{
  length, take, drop, replicate, length-drop, take-append-drop,
}
use mathlib.Core.Logic.{◌⊎◌, inl, inr}
use trading_terminal_cluster.Common.Int.{ℤ, pos}
use trading_terminal_cluster.Common.Machine.{max_i64}
use trading_terminal_cluster.Common.Text.{Text, is_digit, all_chars, trim}
use mathlib.Core.Path.{subst}
use trading_terminal_cluster.Scale.{
  ParseError, empty_number, negative_number, invalid_integer_part, invalid_fractional_part, Result,
  ok, err, ◌>>=◌, ◌>>◌, refuse_if, is_empty, starts_with_minus, digits_value, parse_i64,
  fraction_value, multiplier, combine, split_parts, parse_parts, parse_scaled,
}
use trading_terminal_cluster.Scale.Value.{
  ten_split, ten_pos, value-append, value-shift, value_zeros, value-lt,
}

-- The digits of the fraction, cut or filled to `scale` places.
abbrev pub scaled_fraction : Text → ℕ → ℕ
scaled_fraction frac scale = digits_value 0 (take scale frac) * 10 ^ (scale - length frac)

-- `v` is `int.frac * 10 ^ scale`, rounded down to a whole number.
abbrev pub Floor : Text → Text → ℕ → ℕ → Type 0
Floor int frac scale v =
    (v * 10 ^ length frac ≤ digits_value 0 (int ++ frac) * 10 ^ scale)
    × (digits_value 0 (int ++ frac) * 10 ^ scale < suc v * 10 ^ length frac)

floor_long_step :
    (i t d p r q w v : ℕ)
    → 1 ≤ p
    → d < r
    → q ≡ p * r
    → w ≡ i * q + (t * r + d)
    → v ≡ i * p + t
    → (v * q ≤ w * p) × (w * p < suc v * q)
floor_long_step i t d p r q w v hp hd hq hw hv =
    rw hw
      (rw hq (rw hv (omega (arith, mul-le-mul_right p hd), omega (arith, mul-le-mul_right p hd))))

floor_short_step :
    (i f p r q w v : ℕ)
    → 1 ≤ p
    → q ≡ p * r
    → w ≡ i * p + f
    → v ≡ i * q + f * r
    → (v * p ≤ w * q) × (w * q < suc v * p)
floor_short_step i f p r q w v hp hq hw hv = rw hv (rw hw (rw hq (omega arith, omega arith)))

value_split :
    (int frac : Text)
    → digits_value 0 (int ++ frac) ≡ digits_value 0 int * 10 ^ length frac + digits_value 0 frac
value_split int frac = value-append 0 int frac ∙ value-shift (digits_value 0 int) frac

value_cut :
    (k : ℕ) (s : Text)
    → digits_value 0 s ≡ digits_value 0 (take k s) * 10 ^ (length s - k) + digits_value 0 (drop k s)
value_cut k s =
    ap (digits_value 0) (sym (take-append-drop k s))
    ∙ value_split (take k s) (drop k s)
    ∙ ap (λ n. digits_value 0 (take k s) * 10 ^ n + digits_value 0 (drop k s)) (length-drop k s)

all_chars-drop :
    (k : ℕ) (s : Text) → all_chars is_digit s ≡ true → all_chars is_digit (drop k s) ≡ true
unfolding all_chars
all_chars-drop zero s h = h
all_chars-drop (suc k) [] h = h
all_chars-drop (suc k) (c ∷ s) h = all_chars-drop k s (rest (is_digit c) (all_chars is_digit s) h)
  where
    rest : (a b : Bool) → (a && b) ≡ true → b ≡ true
    rest a b h = ground arith

-- The two cases of a fraction that is no longer than `scale`, and of one that is longer.
Floor-short :
    (int frac : Text) (scale v : ℕ)
    → length frac ≤ scale
    → v ≡ digits_value 0 int * 10 ^ scale + digits_value 0 frac * 10 ^ (scale - length frac)
    → Floor int frac scale v
Floor-short int frac scale v h hv =
    floor_short_step (digits_value 0 int) (digits_value 0 frac) (10 ^ length frac)
      (10 ^ (scale - length frac)) (10 ^ scale) (digits_value 0 (int ++ frac)) v
      (ten_pos (length frac)) (ten_split (length frac) scale h) (value_split int frac) hv

Floor-long :
    (int frac : Text) (scale v : ℕ)
    → scale ≤ length frac
    → all_chars is_digit frac ≡ true
    → v ≡ digits_value 0 int * 10 ^ scale + digits_value 0 (take scale frac)
    → Floor int frac scale v
Floor-long int frac scale v h digits hv =
    floor_long_step (digits_value 0 int) (digits_value 0 (take scale frac))
      (digits_value 0 (drop scale frac)) (10 ^ scale) (10 ^ (length frac - scale))
      (10 ^ length frac) (digits_value 0 (int ++ frac)) v (ten_pos scale)
      (rw (length-drop scale frac) at
        (value-lt (drop scale frac) (all_chars-drop scale frac digits)))
      (ten_split scale (length frac) h)
      (value_split int frac
        ∙ ap (λ f. digits_value 0 int * 10 ^ length frac + f) (value_cut scale frac))
      hv

-- What a number read by `parse_parts` is.
abbrev pub Scaled : Text → Text → ℕ → ℤ → Type 0
Scaled int frac scale z = (v : ℕ) × (z ≡ pos v) × (v ≤ max_i64) × Floor int frac scale v

combine_inv :
    (i m f : ℕ) (z : ℤ) → combine i m f ≡ ok z → (z ≡ pos (i * m + f)) × (i * m + f ≤ max_i64)
unfolding combine
combine_inv i m f z h = ground arith

multiplier_inv : (scale m : ℕ) → multiplier scale ≡ ok m → m ≡ 10 ^ scale
unfolding multiplier
multiplier_inv scale m h = ground arith

multiplier_fits : (scale m : ℕ) → multiplier scale ≡ ok m → 10 ^ scale ≤ max_i64
unfolding multiplier
multiplier_fits scale m h = ground arith

parse_i64_inv : (s : Text) (n : ℕ) → parse_i64 s ≡ ok n → n ≡ digits_value 0 s
unfolding parse_i64
parse_i64_inv s n h = ground arith

fraction_cases :
    (frac : Text) (scale f : ℕ)
    → fraction_value frac scale ≡ ok f
    → ((length frac ≤ scale) × (f ≡ digits_value 0 (frac ++ replicate (scale - length frac) b'0')))
      ⊎ ((scale ≤ length frac) × (f ≡ digits_value 0 (take scale frac)))
unfolding fraction_value parse_i64
fraction_cases [] scale f h = inl (omega arith, ground (arith, value_zeros 0 (scale - 0)))
fraction_cases (c ∷ frac) zero f h = inr (omega arith, ground arith)
fraction_cases (c ∷ frac) (suc scale) f h = ground arith

fraction_Floor :
    (int frac : Text) (scale f : ℕ)
    → all_chars is_digit frac ≡ true
    → fraction_value frac scale ≡ ok f
    → Floor int frac scale (digits_value 0 int * 10 ^ scale + f)
fraction_Floor int frac scale f digits h = elim (fraction_cases frac scale f h) [
  | inl (short, e) ↦ Floor-short int frac scale (digits_value 0 int * 10 ^ scale + f) short (
      ap (λ n. digits_value 0 int * 10 ^ scale + n)
        (e
          ∙ value-append 0 frac (replicate (scale - length frac) b'0')
          ∙ value_zeros (digits_value 0 frac) (scale - length frac)))
  | inr (long, e) ↦
      Floor-long int frac scale (digits_value 0 int * 10 ^ scale + f) long digits
        (ap (λ n. digits_value 0 int * 10 ^ scale + n) e)
]

parts_inv :
    (t u : Bool) (d e : ParseError) (ri rf rm : Result ℕ) (z : ℤ)
    → (refuse_if t d >> (refuse_if u e >> (ri >>= λ i. rf >>= λ f. rm >>= λ m. combine i m f)))
      ≡ ok z
    → (t ≡ false)
      × (u ≡ false)
      × (i : ℕ) × (f : ℕ) × (m : ℕ) × (ri ≡ ok i)
      × (rf ≡ ok f)
      × (rm ≡ ok m)
      × (combine i m f ≡ ok z)
parts_inv true u d e ri rf rm z h = ground arith
parts_inv false true d e ri rf rm z h = ground arith
parts_inv false false d e (err x) rf rm z h = ground arith
parts_inv false false d e (ok i) (err x) rm z h = ground arith
parts_inv false false d e (ok i) (ok f) (err x) z h = ground arith
parts_inv false false d e (ok i) (ok f) (ok m) z h = (refl, refl, i, f, m, refl, refl, refl, h)

not-false : (b : Bool) → not b ≡ false → b ≡ true
not-false b h = ground arith

pub parts_Scaled :
    (int frac : Text) (scale : ℕ) (z : ℤ)
    → parse_parts int frac scale ≡ ok z
    → Scaled int frac scale z
unfolding parse_parts
parts_Scaled int frac scale z h =
    let (ht, hu, i, f, m, hi, hf, hm, hc) =
      parts_inv (is_empty int || not (all_chars is_digit int)) (not (all_chars is_digit frac))
        invalid_integer_part invalid_fractional_part (parse_i64 int) (fraction_value frac scale)
        (multiplier scale) z h in
    let (hz, bound) = combine_inv i m f z hc in
    let value =
      ap (λ i. i * m + f) (parse_i64_inv int i hi)
      ∙ ap (λ m. digits_value 0 int * m + f) (multiplier_inv scale m hm) in
    (
      digits_value 0 int * 10 ^ scale + f,
      hz ∙ ap pos value,
      subst (λ v. v ≤ max_i64) value bound,
      fraction_Floor int frac scale f (not-false _ hu) hf,
    )

-- A number that is accepted has digits behind its point, and a scale that an i64 has room for.
pub parts_digits :
    (int frac : Text) (scale : ℕ) (z : ℤ)
    → parse_parts int frac scale ≡ ok z
    → (all_chars is_digit frac ≡ true) × (10 ^ scale ≤ max_i64)
unfolding parse_parts
parts_digits int frac scale z h =
    let (_, hu, _, _, m, _, _, hm, _) =
      parts_inv (is_empty int || not (all_chars is_digit int)) (not (all_chars is_digit frac))
        invalid_integer_part invalid_fractional_part (parse_i64 int) (fraction_value frac scale)
        (multiplier scale) z h in
    (not-false _ hu, multiplier_fits scale m hm)

-- What the two early returns let through.
pub head_inv :
    (t u : Bool) (d e : ParseError) (r : Result ℤ) (z : ℤ)
    → (refuse_if t d >> (refuse_if u e >> r)) ≡ ok z
    → r ≡ ok z
head_inv true u d e r z h = ground arith
head_inv false true d e r z h = ground arith
head_inv false false d e r z h = h

-- A number that parse_scaled returns is not negative and fits an i64; it is the decimal that the
-- trimmed text spells, times ten to the scale, rounded down.
pub parse_scaled-Scaled :
    (text : Text) (scale : ℕ) (z : ℤ)
    → parse_scaled text scale ≡ ok z
    → Scaled (split_parts (trim text)).0 (split_parts (trim text)).1 scale z
unfolding parse_scaled
parse_scaled-Scaled text scale z h = parts_Scaled _ _ scale z (
    head_inv (is_empty (trim text)) (starts_with_minus (trim text)) empty_number negative_number _ z
      h)
