-- ===== src/Sink/Url.antt =====
-- `urlencode` of crates/clickhouse-sink/src/lib.rs, and of crates/cluster-api/src/cluster_history.rs,
-- which has a copy of it.
use trading_terminal_cluster.Common.{
  ℕ, ◌+◌, ◌*◌, ◌-◌, ◌/◌, ◌%◌, ◌<◌, List, [], ◌∷◌, ◌≡◌, refl, ap, ◌∙◌, arith, Bool, true, ◌||◌, ◌&&◌,
  Option, none, some, inl, inr,
}
use trading_terminal_cluster.Common.Lists.{All}
use trading_terminal_cluster.Common.Tests.{if◌then◌else◌, ltb, leb, nat_beq, Bool-cases}
use trading_terminal_cluster.Common.Text.{Text, is_alphanumeric, is_digit}

unfoldable pub is_plain : ℕ → Bool
unfolding is_alphanumeric is_digit
is_plain b =
    is_alphanumeric b || nat_beq b b'-' || nat_beq b b'_' || nat_beq b b'.' || nat_beq b b'~'

unfoldable pub hex_digit : ℕ → ℕ
hex_digit n = if ltb n 10 then b'0' + n else b'A' + (n - 10)

unfoldable pub urlencode : List ℕ → Text
unfolding is_plain hex_digit
urlencode [] = []
urlencode (b ∷ bs) =
    if is_plain b
    then b ∷ urlencode bs
    else b'%' ∷ hex_digit (b / 16) ∷ hex_digit (b % 16) ∷ urlencode bs

-- The decoding of a query parameter: `%` and two hexadecimal digits are a byte.
unfoldable unhex : ℕ → Option ℕ
unhex c =
    if leb b'0' c && leb c b'9'
    then some (c - b'0')
    else if leb b'A' c && leb c b'F'
    then some (c - b'A' + 10)
    else none

abbrev pub cons_byte : Option ℕ → Option ℕ → Option (List ℕ) → Option (List ℕ)
cons_byte (some h) (some l) (some bs) = some ((h * 16 + l) ∷ bs)
cons_byte _ _ _ = none

abbrev pub cons_char : ℕ → Option (List ℕ) → Option (List ℕ)
cons_char c none = none
cons_char c (some bs) = some (c ∷ bs)

unfoldable pub url_decode : Text → Option (List ℕ)
unfolding unhex
url_decode [] = some []
url_decode (c ∷ []) = if nat_beq c b'%' then none else some (c ∷ [])
url_decode (c ∷ h ∷ []) = if nat_beq c b'%' then none else cons_char c (url_decode (h ∷ []))
url_decode (c ∷ h ∷ l ∷ s) =
    let rest = url_decode s in
    let after = url_decode (h ∷ l ∷ s) in
    if nat_beq c b'%' then cons_byte (unhex h) (unhex l) rest else cons_char c after

decode_plain :
    (c : ℕ) (s : Text) → is_plain c ≡ true → url_decode (c ∷ s) ≡ cons_char c (url_decode s)
unfolding url_decode is_plain is_alphanumeric is_digit
decode_plain c [] h = ground arith
decode_plain c (x ∷ []) h = ground arith
decode_plain c (x ∷ y ∷ s) h = ground arith

unhex-hex_digit : (n : ℕ) → n < 16 → unhex (hex_digit n) ≡ some n
unfolding unhex hex_digit
unhex-hex_digit n h = ground arith

-- A query parameter decodes to the bytes it was encoded from.
pub url_decode-urlencode :
    (bs : List ℕ) → All (λ b. b < 256) bs → url_decode (urlencode bs) ≡ some bs
unfolding urlencode url_decode
url_decode-urlencode [] h = refl
url_decode-urlencode (b ∷ bs) (small, h) = elim (Bool-cases (is_plain b)) [
  | inl plain ↦
      rw plain (decode_plain b (urlencode bs) plain ∙ ap (cons_char b) (url_decode-urlencode bs h))
  | inr coded ↦ rw coded (
      rw (unhex-hex_digit (b / 16) (omega arith)) (
        rw (unhex-hex_digit (b % 16) (omega arith))
          (rw (url_decode-urlencode bs h) (ap (λ n. some (n ∷ bs)) (omega arith)))))
]
