-- ===== src/Scale/Trimmed.antt =====
-- What `count_decimals_trimmed` of crates/exchange-binance/src/scale.rs trims off, and what it counts.
use trading_terminal_cluster.Common.{
  ℕ, suc, ◌+◌, ◌-◌, ◌≤◌, [], ◌∷◌, ◌++◌, ◌≡◌, refl, sym, ap, ◌∙◌, arith, true, false, Bool, Option,
  none, some, inl, inr, ◌⊎◌,
}
use trading_terminal_cluster.Common.Lists.{length, replicate}
use trading_terminal_cluster.Common.Tests.{if◌then◌else◌, nat_beq, ltb, Bool-cases}
use trading_terminal_cluster.Common.Text.{
  Text, is_digit, all_chars, char_len, str_len, trim_end, split_once, ends_with_char,
}
use trading_terminal_cluster.Common.Cuts.{head_tail, str_len-append}
use trading_terminal_cluster.Scale.{count_decimals_trimmed}

abbrev pub is_zero : ℕ → Bool
is_zero c = nat_beq c b'0'

abbrev trim_cons : ℕ → Text → Text
trim_cons c kept = elim kept [ [] ↦ if is_zero c then [] else c ∷ [] | d ∷ r ↦ c ∷ d ∷ r ]

zeros_step :
    (c : ℕ) (s kept : Text) (m : ℕ)
    → s ≡ kept ++ replicate m b'0'
    → (n : ℕ) × (c ∷ s ≡ trim_cons c kept ++ replicate n b'0')
zeros_step c s [] m e = elim (Bool-cases (is_zero c)) [
  | inl zero_char ↦ (
    suc m,
    rw zero_char (ap (λ s. c ∷ s) e ∙ ap (λ c. c ∷ replicate m b'0') (ground (arith, zero_char))),
  )
  | inr other ↦ (m, rw other (ap (λ s. c ∷ s) e))
]
zeros_step c s (d ∷ r) m e = (m, ap (λ s. c ∷ s) e)

-- A text is what `trim_end` leaves of it and zeros.
pub trim_zeros : (s : Text) → (m : ℕ) × (s ≡ trim_end is_zero s ++ replicate m b'0')
unfolding trim_end
trim_zeros [] = (0, refl)
trim_zeros (c ∷ s) = zeros_step c s (trim_end is_zero s) (trim_zeros s).0 (trim_zeros s).1

cons-digits :
    (c : ℕ) (kept : Text)
    → is_digit c ≡ true
    → all_chars is_digit kept ≡ true
    → all_chars is_digit (trim_cons c kept) ≡ true
unfolding all_chars
cons-digits c [] h e = ground (arith, h)
cons-digits c (d ∷ r) h e = ground (arith, h, e)

pub trim_end-digits :
    (s : Text) → all_chars is_digit s ≡ true → all_chars is_digit (trim_end is_zero s) ≡ true
unfolding trim_end all_chars
trim_end-digits [] h = h
trim_end-digits (c ∷ s) h =
    let (first, others) = head_tail (is_digit c) (all_chars is_digit s) h in
    cons-digits c (trim_end is_zero s) first (trim_end-digits s others)

trim_cons-point : (kept : Text) → trim_cons b'.' kept ≡ b'.' ∷ kept
trim_cons-point [] = refl
trim_cons-point (d ∷ r) = refl

trim_cons-append :
    (c : ℕ) (before : Text) (d : ℕ) (kept : Text)
    → trim_cons c (before ++ (d ∷ kept)) ≡ c ∷ (before ++ (d ∷ kept))
trim_cons-append c [] d kept = refl
trim_cons-append c (b ∷ before) d kept = refl

-- Before a point nothing is trimmed.
pub trim_end-point :
    (before after : Text)
    → trim_end is_zero (before ++ (b'.' ∷ after)) ≡ before ++ (b'.' ∷ trim_end is_zero after)
unfolding trim_end
trim_end-point [] after = trim_cons-point (trim_end is_zero after)
trim_end-point (c ∷ before) after =
    ap (trim_cons c) (trim_end-point before after)
    ∙ trim_cons-append c before b'.' (trim_end is_zero after)

no_point : (s : Text) → all_chars is_digit s ≡ true → ends_with_char b'.' s ≡ false
unfolding ends_with_char all_chars is_digit
no_point [] h = refl
no_point (c ∷ []) h = ground (arith, h)
no_point (c ∷ d ∷ s) h = no_point (d ∷ s) (head_tail (is_digit c) _ h).1

ends_with-digits :
    (before kept : Text)
    → all_chars is_digit kept ≡ true
    → ends_with_char b'.' (before ++ (b'.' ∷ kept)) ≡ nat_beq (length kept) 0
unfolding ends_with_char
ends_with-digits [] [] h = refl
ends_with-digits [] (d ∷ r) h = no_point (d ∷ r) h ∙ ground arith
ends_with-digits (x ∷ []) kept h = ends_with-digits [] kept h
ends_with-digits (x ∷ y ∷ before) kept h = ends_with-digits (y ∷ before) kept h

str_len-digits : (s : Text) → all_chars is_digit s ≡ true → str_len s ≡ length s
unfolding str_len char_len all_chars is_digit
str_len-digits [] h = refl
str_len-digits (c ∷ s) h = ground (arith, h, str_len-digits s)

abbrev Halves : Type 0
Halves = Option (Text × Text)

abbrev found : ℕ → Text → Bool → Halves → Halves
found x s true rest = some ([], s)
found x s false none = none
found x s false (some (l, r)) = some (x ∷ l, r)

if_found :
    (x : ℕ) (s : Text) (b : Bool) (rest : Halves)
    → (if◌then◌else◌ {A = Halves} b
        (some ([], s))
        (elim rest [ none ↦ none | some (l, r) ↦ some (x ∷ l, r) ]))
      ≡ found x s b rest
if_found x s true rest = refl
if_found x s false none = refl
if_found x s false (some (l, r)) = refl

abbrev rejoined : ℕ → Halves → Text
rejoined c none = []
rejoined c (some (l, r)) = l ++ (c ∷ r)

same_char : (x c : ℕ) → nat_beq x c ≡ true → x ≡ c
same_char x c h = ground (arith, h)

found_step :
    (c x : ℕ) (s before after : Text) (b : Bool) (rest : Halves)
    → nat_beq x c ≡ b
    → ((l r : Text) → rest ≡ some (l, r) → s ≡ l ++ (c ∷ r))
    → found x s b rest ≡ some (before, after)
    → x ∷ s ≡ before ++ (c ∷ after)
found_step c x s before after true rest e same h =
    ap (λ x. x ∷ s) (same_char x c e) ∙ ap (rejoined c) h
found_step c x s before after false none e same h = ground (arith, h)
found_step c x s before after false (some (l, r)) e same h =
    ap (λ s. x ∷ s) (same l r refl) ∙ ap (rejoined c) h

pub split_once-append :
    (c : ℕ) (s before after : Text)
    → split_once c s ≡ some (before, after)
    → s ≡ before ++ (c ∷ after)
unfolding split_once
split_once-append c [] before after h = ground (arith, h)
split_once-append c (x ∷ s) before after h =
    found_step c x s before after (nat_beq x c) (split_once c s) refl
      (λ l r. split_once-append c s l r) (sym (if_found x s (nat_beq x c) (split_once c s)) ∙ h)

abbrev pub counted : Text → Text → ℕ
counted before trimmed =
    if ends_with_char b'.' trimmed
    then 0
    else (let after_dot = str_len trimmed - str_len before - 1 in
        if ltb after_dot 255 then after_dot else 255)

pub count_found :
    (s before frac : Text)
    → split_once b'.' s ≡ some (before, frac)
    → count_decimals_trimmed s ≡ counted before (trim_end is_zero s)
unfolding count_decimals_trimmed
count_found s before frac e = rw (e, count_decimals_trimmed) refl

counted_cases :
    (b : Bool) (a n k : ℕ)
    → b ≡ nat_beq k 0
    → a ≡ n + (1 + k)
    → (k ≤ (if b then 0 else (if ltb (a - n - 1) 255 then a - n - 1 else 255)))
      ⊎ ((if b then 0 else (if ltb (a - n - 1) 255 then a - n - 1 else 255)) ≡ 255)
counted_cases b a n k hb ha = ground (arith, hb, ha)

point_len : (kept : Text) → all_chars is_digit kept ≡ true → str_len (b'.' ∷ kept) ≡ 1 + length kept
unfolding str_len char_len
point_len kept digits = ap (λ n. 1 + n) (str_len-digits kept digits)

-- The digits that trimming leaves, unless a u8 has no room for their number.
pub counted-kept :
    (before kept : Text)
    → all_chars is_digit kept ≡ true
    → (length kept ≤ counted before (before ++ (b'.' ∷ kept)))
      ⊎ (counted before (before ++ (b'.' ∷ kept)) ≡ 255)
counted-kept before kept digits =
    counted_cases (ends_with_char b'.' (before ++ (b'.' ∷ kept)))
      (str_len (before ++ (b'.' ∷ kept))) (str_len before) (length kept)
      (ends_with-digits before kept digits)
      (str_len-append before (b'.' ∷ kept) ∙ ap (λ n. str_len before + n) (point_len kept digits))
