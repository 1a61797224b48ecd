-- ===== src/Adapters/Okx/Contracts.antt =====
-- What `gcd` and `ct_val_fraction` of crates/exchange-okx/src/scale.rs return.
use Prim.Native.Nat.{◌∣◌}
use mathlib.Core.Path.{subst}
use native.Mathlib.Nat
use trading_terminal_cluster.Common.{
  ℕ, zero, suc, ◌*◌, ◌/◌, ◌%◌, ◌^◌, ◌<◌, ◌≤◌, ◌≡◌, refl, sym, ap, some, [], ◌∷◌, arith,
}
use trading_terminal_cluster.Common.Int.{pos}
use trading_terminal_cluster.Common.Machine.{max_i64}
use trading_terminal_cluster.Common.Division.{quotient, remainder, abs_i64, wrap_to}
use trading_terminal_cluster.Common.Text.{Text, is_digit, all_chars}
use trading_terminal_cluster.Common.Parse.{parse_signed_to, parse_digits}
use trading_terminal_cluster.Common.Slices.{remove_char}
use trading_terminal_cluster.Common.Json.{or_default}
use trading_terminal_cluster.Scale.Value.{ten_pos}
use trading_terminal_cluster.Adapters.Okx.{
  decimals_of, without_point, ten_to, gcd_loop, gcd, ct_val_fraction,
}

pub quotient_pos :
    (high a b : ℕ) → 0 < b → a ≤ high → quotient high (pos a) (pos b) ≡ some (pos (a / b))
unfolding quotient
quotient_pos high a b h k = ground (arith, Nat.div-le_self a b)

remainder_pos :
    (high a b : ℕ) → 0 < b → a ≤ high → remainder high (pos a) (pos b) ≡ some (pos (a % b))
unfolding remainder
remainder_pos high a b h k = ground (arith, quotient_pos high a b h k)

-- The greatest common divisor.
unfoldable pub IsGcd : ℕ → ℕ → ℕ → Type 0
IsGcd a b g = (g ∣ a) × (g ∣ b) × ((k : ℕ) → k ∣ a → k ∣ b → k ∣ g)

gcd_loop_lem :
    (turns a b : ℕ)
    → b < turns
    → a ≤ max_i64
    → b ≤ max_i64
    → (g : ℕ) × (gcd_loop turns (pos a) (pos b) ≡ some (pos g)) × IsGcd a b g
unfolding gcd_loop IsGcd
gcd_loop_lem zero a b h ha hb = absurd (omega arith)
gcd_loop_lem (suc turns) a zero h ha hb = (a, refl, (Nat.dvd_refl a, Nat.dvd-zero a, λ k l _. l))
gcd_loop_lem (suc turns) a (suc c) h ha hb =
    let (g, e, (left, right, greatest)) =
      gcd_loop_lem turns (suc c) (a % suc c) (omega arith) hb (omega arith) in
    (
      g,
      ground (arith, remainder_pos max_i64 a (suc c) (omega arith) ha, e),
      (
        (Nat.dvd-mod_iff _ left).0 right,
        left,
        λ k ka kb. greatest k kb ((Nat.dvd-mod_iff _ kb).1 ka),
      ),
    )

abs_pos : (n : ℕ) → n ≤ max_i64 → abs_i64 (pos n) ≡ pos n
unfolding abs_i64
abs_pos n h = ground arith

pub gcd_lem :
    (a b : ℕ)
    → a ≤ max_i64
    → b ≤ max_i64
    → (g : ℕ) × (gcd (pos a) (pos b) ≡ some (pos g)) × IsGcd a b g
unfolding gcd
gcd_lem a b ha hb =
    let (g, e, h) = gcd_loop_lem (suc b) a b (omega arith) ha hb in
    (g, ground (arith, abs_pos a ha, abs_pos b hb, e), h)

-- The parts of a fraction in lowest terms.
abbrev pub Lowest : ℕ → ℕ → Type 0
Lowest n d = (k : ℕ) → k ∣ n → k ∣ d → k ≡ 1

factor_pos : (q g b : ℕ) → q * g ≡ b → 0 < b → 0 < q
factor_pos zero g b e h = absurd (omega arith)
factor_pos (suc q) g b e h = omega arith

parts-Lowest : (a b g : ℕ) → 0 < b → IsGcd a b g → (0 < g) × (0 < b / g) × Lowest (a / g) (b / g)
unfolding IsGcd
parts-Lowest a b g h (left, right, greatest) =
    let g_pos = Nat.pos_of_dvd_of_pos right h in
    (
      g_pos,
      factor_pos (b / g) g b (Nat.div-mul_cancel g right) h,
      λ k ka kb. Nat.eq-one_of_dvd-one (
          Nat.dvd_of_mul-dvd-mul_right k g_pos (
            subst (λ m. k * g ∣ m) (omega arith)
              (greatest (k * g) (scaled k a left ka) (scaled k b right kb)))),
    )
  where
    scaled : (k n : ℕ) → g ∣ n → k ∣ n / g → k * g ∣ n
    scaled k n gn kn =
        subst (λ m. k * g ∣ m) (Nat.div-mul_cancel g gn) (Nat.mul-dvd-mul_right k kn g)

parse_signed_to_pos :
    (high v : ℕ) (t : Text) → parse_digits high t ≡ some v → parse_signed_to high t ≡ some (pos v)
unfolding parse_signed_to parse_digits all_chars is_digit
parse_signed_to_pos high v [] h = ground (arith, h)
parse_signed_to_pos high v (c ∷ t) h = ground (arith, h)

parse_digits_le : (high v : ℕ) (t : Text) → parse_digits high t ≡ some v → v ≤ high
unfolding parse_digits
parse_digits_le high v [] h = ground (arith, h)
parse_digits_le high v (c ∷ t) h = ground (arith, h)

-- Both sides are the product without its common divisor.
cross : (a b g : ℕ) → IsGcd a b g → a / g * b ≡ a * (b / g)
unfolding IsGcd
cross a b g (left, right, _) =
    cross_step (a / g) (b / g) g a b (Nat.div-mul_cancel g left) (Nat.div-mul_cancel g right)
  where
    cross_step : (x y g a b : ℕ) → x * g ≡ a → y * g ≡ b → x * b ≡ a * y
    cross_step x y g a b p q = rw (sym p, sym q) (omega arith)

-- The digits of a text, with or without a point.
without_point_pos :
    (s : Text) (v : ℕ)
    → parse_digits max_i64 (remove_char b'.' s) ≡ some v
    → without_point max_i64 s ≡ pos v
unfolding without_point
without_point_pos s v h =
    ap (or_default (pos 1)) (parse_signed_to_pos max_i64 v (remove_char b'.' s) h)

ten_le : (k n : ℕ) → k ≤ n → 10 ^ k ≤ 10 ^ n
ten_le k n h = Nat.pow-le-pow_right {n = 10} (omega arith) h

ten_to_pos : (k : ℕ) → k ≤ 18 → ten_to max_i64 k ≡ pos (10 ^ k)
unfolding ten_to wrap_to
ten_to_pos k h = ground (arith, small, ten_le k 18 h)
  where
    small : k % 2 ^ 32 ≡ k
    small = omega arith

-- A contract value is read as a fraction in lowest terms: where its digits, without the point, are a
-- number that fits an i64, and at most 18 of them stand behind the point, the two parts are not
-- negative, the second one is not 0, and their quotient is the value.
pub ct_val_fraction_lem :
    (s : Text) (v : ℕ)
    → parse_digits max_i64 (remove_char b'.' s) ≡ some v
    → decimals_of s ≤ 18
    → (n : ℕ) × (d : ℕ) × (ct_val_fraction s ≡ some (pos n, pos d))
      × (n * 10 ^ decimals_of s ≡ v * d)
      × (0 < d)
      × Lowest n d
unfolding ct_val_fraction
ct_val_fraction_lem s v h k =
    let bound = parse_digits_le max_i64 v (remove_char b'.' s) h in
    let small : 10 ^ decimals_of s ≤ max_i64 = omega (arith, ten_le (decimals_of s) 18 k) in
    let (g, e, isgcd) = gcd_lem v (10 ^ decimals_of s) bound small in
    let (g_pos, d_pos, lowest) =
      parts-Lowest v (10 ^ decimals_of s) g (ten_pos (decimals_of s)) isgcd in
    (
      v / g,
      10 ^ decimals_of s / g,
      ground (
        arith,
        without_point_pos s v h,
        ten_to_pos (decimals_of s) k,
        e,
        quotient_pos max_i64 v g g_pos bound,
        quotient_pos max_i64 (10 ^ decimals_of s) g g_pos small,
      ),
      cross v (10 ^ decimals_of s) g isgcd,
      d_pos,
      lowest,
    )
