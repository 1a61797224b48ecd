-- ===== src/Common/Digits.antt =====
-- When the native `or` and `exclusive or` of binary digits are zero.
use Prim.Native.Nat.{
  ℕ, zero, suc, ◌+◌, ◌*◌, ◌/◌, ◌%◌, ◌≤◌, ◌<◌, ◌^◌, bit_and, max, digits, differ, bit_or, bit_xor,
  bit_or-bitwise, bit_xor-bitwise,
}
use native.Mathlib.Nat.{le_refl, pow-suc}
use mathlib.Core.Bool.{Bool, true, ◌&&◌}
use trading_terminal_cluster.Common.Tests.{nat_beq, nat_beq_iff}
use mathlib.Core.Path.{◌≡◌, refl, sym}
use mathlib.Core.Logic.{◌↔◌}
use native.Mathlib.Omega.{arith}

differ_zero : (x y : ℕ) → differ x y ≡ 0 → x ≡ y
differ_zero zero y h = omega arith
differ_zero (suc x) zero h = absurd (omega arith)
differ_zero (suc x) (suc y) h = omega (arith, differ_zero x y h)

differ_self : (x : ℕ) → differ x x ≡ 0
differ_self zero = refl
differ_self (suc x) = differ_self x

eq_of_differ : (n a b : ℕ) → a ≤ n → digits (λ b. b) differ n a b ≡ 0 → a ≡ b
eq_of_differ zero a b le h = omega arith
eq_of_differ (suc n) zero b le h = omega arith
eq_of_differ (suc n) (suc a) b le h = omega (
  arith,
  eq_of_differ n (suc a / 2) (b / 2) (omega arith) (omega arith),
  differ_zero (suc a % 2) (b % 2) (omega arith),
)

same_digits : (n a : ℕ) → a ≤ n → digits (λ b. b) differ n a a ≡ 0
same_digits zero a le = omega arith
same_digits (suc n) zero le = refl
same_digits (suc n) (suc a) le =
    omega (arith, same_digits n (suc a / 2) (omega arith), differ_self (suc a % 2))

xor_digits : (a b : ℕ) → bit_xor a b ≡ digits (λ b. b) differ a a b
xor_digits a b = bit_xor-bitwise a b

pub bit_xor_zero : (a b : ℕ) → (bit_xor a b ≡ 0) ↔ (a ≡ b)
bit_xor_zero a b = (
  λ h. eq_of_differ a a b (le_refl a) (omega (arith, xor_digits a b)),
  λ e. rw (sym e, xor_digits a a, same_digits a a (le_refl a)),
)

zeros_of_max : (n a b : ℕ) → a ≤ n → digits (λ b. b) max n a b ≡ 0 → (a ≡ 0) × (b ≡ 0)
zeros_of_max zero a b le h = (omega arith, omega arith)
zeros_of_max (suc n) zero b le h = (refl, h)
zeros_of_max (suc n) (suc a) b le h =
    let (x, y) = zeros_of_max n (suc a / 2) (b / 2) (omega arith) (omega arith) in
    (omega arith, omega arith)

or_digits : (a b : ℕ) → bit_or a b ≡ digits (λ b. b) max a a b
or_digits a b = bit_or-bitwise a b

pub bit_or_zero : (a b : ℕ) → (bit_or a b ≡ 0) ↔ ((a ≡ 0) × (b ≡ 0))
bit_or_zero a b = (
  λ h. zeros_of_max a a b (le_refl a) (omega (arith, or_digits a b)),
  λ (x, y). rw (x, y, or_digits 0 0),
)

-- The recursion's fuel does not matter once it is enough.
digits_fuel : (n m a b : ℕ) → a ≤ n → a ≤ m → digits (λ b. b) max n a b ≡ digits (λ b. b) max m a b
digits_fuel n m zero b hn hm = zeros n m b
  where
    zeros : (n m b : ℕ) → digits (λ b. b) max n zero b ≡ digits (λ b. b) max m zero b
    zeros zero zero b = refl
    zeros zero (suc m) b = refl
    zeros (suc n) zero b = refl
    zeros (suc n) (suc m) b = refl
digits_fuel zero m (suc a) b hn hm = absurd (omega arith)
digits_fuel (suc n) zero (suc a) b hn hm = absurd (omega arith)
digits_fuel (suc n) (suc m) (suc a) b hn hm =
    omega (arith, digits_fuel n m (suc a / 2) (b / 2) (omega arith) (omega arith))

bit_or_halves : (a b : ℕ) → bit_or a b ≡ bit_or (a / 2) (b / 2) * 2 + max (a % 2) (b % 2)
bit_or_halves zero b = omega (arith, or_digits 0 b, or_digits 0 (b / 2))
bit_or_halves (suc a) b = omega (
  arith,
  or_digits (suc a) b,
  or_digits (suc a / 2) (b / 2),
  digits_fuel a (suc a / 2) (suc a / 2) (b / 2) (omega arith) (le_refl _),
)

bit_or_double : (a y : ℕ) → bit_or (a / 2) y ≡ a / 2 + y → bit_or a (y * 2) ≡ a + y * 2
bit_or_double a y h =
    let half : y * 2 / 2 ≡ y = omega arith in
    let all = bit_or_halves a (y * 2) in omega (arith, rw half at all, h)

-- Digits that do not overlap are added.
pub bit_or_shift : (k a x : ℕ) → a < 2 ^ k → bit_or a (x * 2 ^ k) ≡ a + x * 2 ^ k
bit_or_shift zero a x h =
    let none_left : a ≡ 0 = omega arith in rw none_left (omega (arith, or_digits 0 (x * 2 ^ 0)))
bit_or_shift (suc k) a x h =
    let low =
      bit_or_double a (x * 2 ^ k) (bit_or_shift k (a / 2) x (omega (arith, pow-suc 2 k, h))) in
    let same : x * 2 ^ k * 2 ≡ x * 2 ^ suc k = rw (pow-suc 2 k) (omega arith) in rw same at low

module _ (f g : ℕ → ℕ) where
  agree : ℕ → Bool
  agree zero = true
  agree (suc n) = nat_beq (f n) (g n) && agree n

  agree-below : (n i : ℕ) → agree n ≡ true → i < n → f i ≡ g i
  unfolding agree
  agree-below zero i e h = absurd (omega arith)
  agree-below (suc n) i e h = ground (arith, nat_beq_iff (f n) (g n), agree-below n i)

-- The masks of a byte.
pub low_bits : (b : ℕ) → b < 256 → bit_and b 0x7f ≡ b % 128
unfolding agree
low_bits b h = agree-below (λ b. bit_and b 0x7f) (λ b. b % 128) 256 b refl h

pub top_bit : (b : ℕ) → b < 256 → bit_and b 0x80 ≡ b / 128 * 128
unfolding agree
top_bit b h = agree-below (λ b. bit_and b 0x80) (λ b. b / 128 * 128) 256 b refl h
