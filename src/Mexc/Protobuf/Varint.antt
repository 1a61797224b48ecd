-- ===== src/Mexc/Protobuf/Varint.antt =====
-- Variable-length integers: what `read_varint` of crates/exchange-mexc/src/pb.rs makes of the bytes
-- that the format has for a number.
use Prim.Native.Nat.{bit_and, bit_or}
use native.Mathlib.Nat.{pow-suc}
use trading_terminal_cluster.Common.{
  ℕ, zero, suc, ◌+◌, ◌*◌, ◌/◌, ◌%◌, ◌^◌, ◌≤◌, ◌<◌, [], ◌∷◌, ◌++◌, true, false, some, ◌≡◌, refl, ap,
  ◌∙◌, inl, inr, arith,
}
use trading_terminal_cluster.Common.Digits.{bit_or_shift, low_bits, top_bit}
use trading_terminal_cluster.Common.Tests.{ltb→lt, if◌then◌else◌, ltb, leb, nat_beq, Bool-cases}
use trading_terminal_cluster.Mexc.Protobuf.{Bytes, varint_from, read_varint}

-- Seven bits a byte, the lowest first; all bytes but the last have the top bit. Ten bytes are
-- enough for 64 bits.
unfoldable pub varint_bytes : ℕ → ℕ → Bytes
varint_bytes zero n = []
varint_bytes (suc fuel) n =
    let rest = varint_bytes fuel (n / 128) in if ltb n 128 then n ∷ [] else (n % 128 + 128) ∷ rest

unfoldable pub encode_varint : ℕ → Bytes
unfolding varint_bytes
encode_varint n = varint_bytes 10 n

pow_pos : (k : ℕ) → 1 ≤ 2 ^ k
pow_pos zero = omega arith
pow_pos (suc k) = omega (arith, pow-suc 2 k, pow_pos k)

pow_le : (a b : ℕ) → a ≤ b → 2 ^ a ≤ 2 ^ b
pow_le zero b h = pow_pos b
pow_le (suc a) zero h = absurd (omega arith)
pow_le (suc a) (suc b) h = omega (arith, pow-suc 2 a, pow-suc 2 b, pow_le a b (omega arith))

pow_seven : (k : ℕ) → 2 ^ (k + 7) ≡ 2 ^ k * 128
pow_seven zero = omega arith
pow_seven (suc k) =
    let same : suc k + 7 ≡ suc (k + 7) = omega arith in
    rw same (omega (arith, pow-suc 2 (k + 7), pow-suc 2 k, pow_seven k))

-- The seven bits of a byte, put in their place.
read_bits :
    (shift result b : ℕ)
    → result < 2 ^ shift
    → b < 256
    → b % 128 * 2 ^ shift < 2 ^ 64
    → bit_or result (bit_and b 0x7f * 2 ^ shift % 2 ^ 64) ≡ result + b % 128 * 2 ^ shift
read_bits shift result b small byte fits =
    let whole : b % 128 * 2 ^ shift % 2 ^ 64 ≡ b % 128 * 2 ^ shift = omega (arith, fits) in
    rw (low_bits b byte, whole) (bit_or_shift shift result (b % 128) small)

last_byte :
    (shift result n : ℕ) (rest : Bytes)
    → result < 2 ^ shift
    → n < 128
    → n * 2 ^ shift < 2 ^ 64
    → varint_from shift result (n ∷ rest) ≡ some (result + n * 2 ^ shift, rest)
unfolding varint_from
last_byte shift result n rest small byte fits =
    let same : n % 128 ≡ n = omega arith in
    let bits = read_bits shift result n small (omega arith) (rw same fits) in
    let top : nat_beq (bit_and n 0x80) 0 ≡ true = ground (arith, top_bit n (omega arith)) in
    rw (varint_from, top, bits, same) refl

seven_bits : (r p : ℕ) → r < 128 → r * p ≤ 127 * p
seven_bits r zero h = omega arith
seven_bits r (suc p) h = omega (arith, seven_bits r p h)

seven_fit : (shift r : ℕ) → r < 128 → shift + 7 < 64 → r * 2 ^ shift < 2 ^ 64
seven_fit shift r small h =
    omega
      (arith, seven_bits r (2 ^ shift) small, pow_le (shift + 7) 63 (omega arith), pow_seven shift)

next_byte :
    (shift result r : ℕ) (rest : Bytes)
    → result < 2 ^ shift
    → r < 128
    → shift + 7 < 64
    → varint_from shift result ((r + 128) ∷ rest)
      ≡ varint_from (shift + 7) (result + r * 2 ^ shift) rest
unfolding varint_from
next_byte shift result r rest small seven more =
    let same : (r + 128) % 128 ≡ r = omega arith in
    let bits =
      read_bits shift result (r + 128) small (omega arith)
        (rw same (seven_fit shift r seven more)) in
    let top : nat_beq (bit_and (r + 128) 0x80) 0 ≡ false =
      ground (arith, top_bit (r + 128) (omega arith)) in
    let on : leb 64 (shift + 7) ≡ false = ground arith in rw (varint_from, top, on, bits, same) refl

large_product : (n p : ℕ) → 128 ≤ n → p * 128 ≤ n * p
large_product n zero h = omega arith
large_product n (suc p) h = omega (arith, large_product n p h)

more_bits : (shift n : ℕ) → 128 ≤ n → n * 2 ^ shift < 2 ^ 64 → shift + 7 < 64
more_bits shift n large h = elim (Bool-cases (ltb (shift + 7) 64)) [
  | inl on ↦ ltb→lt (shift + 7) 64 on
  | inr over ↦
      let wide : 64 ≤ shift + 7 = ground arith in
      absurd (
        omega (
          arith,
          pow_le 64 (shift + 7) wide,
          pow_seven shift,
          h,
          large_product n (2 ^ shift) large,
        ))
]

-- A number is its upper bits and its seven lower ones.
parts : (n p : ℕ) → n % 128 * p + n / 128 * (p * 128) ≡ n * p
parts n p =
    let whole : n / 128 * 128 + n % 128 ≡ n = omega arith in
    let split : n % 128 * p + n / 128 * (p * 128) ≡ (n / 128 * 128 + n % 128) * p = omega arith in
    split ∙ ap (λ m. m * p) whole

varint_from-bytes :
    (fuel shift result n : ℕ) (rest : Bytes)
    → result < 2 ^ shift
    → n < 128 ^ suc fuel
    → n * 2 ^ shift < 2 ^ 64
    → varint_from shift result (varint_bytes (suc fuel) n ++ rest)
      ≡ some (result + n * 2 ^ shift, rest)
unfolding varint_bytes
varint_from-bytes zero shift result n rest small enough fits =
    let last : ltb n 128 ≡ true = ground (arith, enough, pow-suc 128 0) in
    rw last (last_byte shift result n rest small (ltb→lt n 128 last) fits)
varint_from-bytes (suc fuel) shift result n rest small enough fits = elim (Bool-cases (ltb n 128)) [
  | inl last ↦ rw last (last_byte shift result n rest small (ltb→lt n 128 last) fits)
  | inr more ↦
      let on = more_bits shift n (ground arith) fits in
      let sum = parts n (2 ^ shift) in
      let seven = pow_seven shift in
      rw more (
        next_byte shift result (n % 128) (varint_bytes (suc fuel) (n / 128) ++ rest) small
          (omega arith) on
        ∙ varint_from-bytes fuel (shift + 7) (result + n % 128 * 2 ^ shift) (n / 128) rest
            (omega (arith, seven_bits (n % 128) (2 ^ shift) (omega arith), seven))
            (omega (arith, pow-suc 128 (suc fuel), enough)) (rw seven (omega (arith, sum, fits)))
        ∙ ap (λ m. some (m, rest)) (rw seven (omega (arith, sum))))
]

-- The bytes of every u64 are read as that number, and what follows them is left.
pub read_varint-encode_varint :
    (n : ℕ) (rest : Bytes) → n < 2 ^ 64 → read_varint (encode_varint n ++ rest) ≡ some (n, rest)
unfolding read_varint encode_varint
read_varint-encode_varint n rest h =
    varint_from-bytes 9 0 0 n rest (omega arith) (omega (arith, h)) (omega (arith, h))
    ∙ ap (λ m. some (m, rest)) (omega arith)
