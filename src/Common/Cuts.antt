-- ===== src/Common/Cuts.antt =====
-- What the cuts of Common/Slices leave: a text is its parts, and a text without a character loses
-- nothing when that character is removed.
use trading_terminal_cluster.Common.{
  ℕ, zero, suc, ◌+◌, ◌-◌, ◌≤◌, [], ◌∷◌, ◌++◌, Bool, true, false, ◌&&◌, not, Option, none, some, ◌≡◌,
  refl, sym, ap, ◌∙◌, inl, inr, arith,
}
use trading_terminal_cluster.Common.Tests.{if◌then◌else◌, leb, nat_beq, Bool-cases}
use trading_terminal_cluster.Common.Lists.{length}
use trading_terminal_cluster.Common.Eq.{◌==◌, Eq, nat_eq, list_eq}
use trading_terminal_cluster.Common.Text.{Text, char_len, str_len, all_chars}
use trading_terminal_cluster.Common.Slices.{split_at, split_from_end, strip_suffix, remove_char}

abbrev pub other_than : ℕ → ℕ → Bool
other_than c x = not (nat_beq x c)

-- The text has no such character.
abbrev pub Without : ℕ → Text → Type 0
Without c s = all_chars (other_than c) s ≡ true

-- Both parts of a conjunction.
pub head_tail : (a b : Bool) → (a && b) ≡ true → (a ≡ true) × (b ≡ true)
head_tail true b h = (refl, h)
head_tail false b h = ground (arith, h)

pub Without-append : (c : ℕ) (s t : Text) → Without c (s ++ t) → Without c s × Without c t
unfolding all_chars
Without-append c [] t h = (refl, h)
Without-append c (x ∷ s) t h =
    let (first, others) = head_tail (other_than c x) _ h in
    let (left, right) = Without-append c s t others in (ground (arith, first, left), right)

pub remove_char-append :
    (c : ℕ) (s t : Text) → remove_char c (s ++ t) ≡ remove_char c s ++ remove_char c t
unfolding remove_char
remove_char-append c [] t = refl
remove_char-append c (x ∷ s) t = elim (Bool-cases (nat_beq x c)) [
  | inl hit ↦ rw hit (remove_char-append c s t)
  | inr miss ↦ rw miss (ap (λ s. x ∷ s) (remove_char-append c s t))
]

pub remove_char-Without : (c : ℕ) (s : Text) → Without c s → remove_char c s ≡ s
unfolding remove_char all_chars
remove_char-Without c [] h = refl
remove_char-Without c (x ∷ s) h =
    let (first, others) = head_tail (other_than c x) _ h in
    ground (arith, first, remove_char-Without c s others)

-- `str::len` of two texts in a row.
pub str_len-append : (s t : Text) → str_len (s ++ t) ≡ str_len s + str_len t
unfolding str_len
str_len-append [] t = omega arith
str_len-append (c ∷ s) t = omega (arith, str_len-append s t)

same_text : (s t : Text) → (s == t) ≡ true → s ≡ t
same_text s t h = let texts : Eq Text = list_eq in (texts.same_iff s t).0 h

abbrev put_before : ℕ → Option Text → Option Text
put_before c rest = elim rest [ none ↦ none | some l ↦ some (c ∷ l) ]

abbrev followed_by : Text → Option Text → Text
followed_by p none = []
followed_by p (some l) = l ++ p

strip_step :
    (p : Text) (c : ℕ) (s l : Text) (b : Bool) (rest : Option Text)
    → (b ≡ true → p ≡ c ∷ s)
    → ((r : Text) → rest ≡ some r → s ≡ r ++ p)
    → (if b then some [] else put_before c rest) ≡ some l
    → c ∷ s ≡ l ++ p
strip_step p c s l true rest same next h = sym (same refl) ∙ ap (followed_by p) h
strip_step p c s l false none same next h = ground (arith, h)
strip_step p c s l false (some r) same next h = ap (λ s. c ∷ s) (next r refl) ∙ ap (followed_by p) h

end_step :
    (p l : Text) (b : Bool)
    → (b ≡ true → p ≡ [])
    → (if b then some [] else none) ≡ some l
    → [] ≡ l ++ p
end_step p l true same h = sym (same refl) ∙ ap (followed_by p) h
end_step p l false same h = ground (arith, h)

pub strip_suffix-append : (p s l : Text) → strip_suffix p s ≡ some l → s ≡ l ++ p
unfolding strip_suffix
strip_suffix-append p [] l h = end_step p l (p == []) (λ e. same_text p [] e) h
strip_suffix-append p (c ∷ s) l h =
    strip_step p c s l (p == c ∷ s) (strip_suffix p s) (λ e. same_text p (c ∷ s) e)
      (strip_suffix-append p s) h

abbrev Halves : Type 0
Halves = Option (Text × Text)

abbrev put_first : ℕ → Halves → Halves
put_first c rest = elim rest [ none ↦ none | some (l, r) ↦ some (c ∷ l, r) ]

abbrev joined : Halves → Text
joined none = []
joined (some (l, r)) = l ++ r

split_step :
    (c : ℕ) (s l r : Text) (b : Bool) (rest : Halves)
    → ((x y : Text) → rest ≡ some (x, y) → s ≡ x ++ y)
    → (if b then put_first c rest else none) ≡ some (l, r)
    → c ∷ s ≡ l ++ r
split_step c s l r false rest next h = ground (arith, h)
split_step c s l r true none next h = ground (arith, h)
split_step c s l r true (some (x, y)) next h = ap (λ s. c ∷ s) (next x y refl) ∙ ap joined h

pub split_at-append : (n : ℕ) (s l r : Text) → split_at n s ≡ some (l, r) → s ≡ l ++ r
unfolding split_at
split_at-append zero s l r h = ap joined h
split_at-append (suc n) [] l r h = ground (arith, h)
split_at-append (suc n) (c ∷ s) l r h =
    split_step c s l r (leb (char_len c) (suc n)) (split_at (suc n - char_len c) s)
      (split_at-append (suc n - char_len c) s) h

abbrev first_bytes : Halves → ℕ
first_bytes none = 0
first_bytes (some (l, r)) = str_len l

bytes_step :
    (c n : ℕ) (l r : Text) (b : Bool) (rest : Halves)
    → leb (char_len c) n ≡ b
    → ((x y : Text) → rest ≡ some (x, y) → str_len x ≡ n - char_len c)
    → (if b then put_first c rest else none) ≡ some (l, r)
    → str_len l ≡ n
unfolding str_len
bytes_step c n l r false rest e next h = ground (arith, h)
bytes_step c n l r true none e next h = ground (arith, h)
bytes_step c n l r true (some (x, y)) e next h = sym (ap first_bytes h) ∙ whole e
  where
    whole : leb (char_len c) n ≡ true → char_len c + str_len x ≡ n
    whole e = ground (arith, e, next x y refl)

-- The bytes in front of the cut.
split_bytes : (n : ℕ) (s l r : Text) → split_at n s ≡ some (l, r) → str_len l ≡ n
unfolding split_at str_len
split_bytes zero s l r h = sym (ap first_bytes h)
split_bytes (suc n) [] l r h = ground (arith, h)
split_bytes (suc n) (c ∷ s) l r h =
    bytes_step c (suc n) l r (leb (char_len c) (suc n)) (split_at (suc n - char_len c) s) refl
      (split_bytes (suc n - char_len c) s) h

pub split_from_end-append :
    (n : ℕ) (s l r : Text) → split_from_end n s ≡ some (l, r) → (s ≡ l ++ r) × (str_len r ≡ n)
unfolding split_from_end
split_from_end-append n s l r h = elim (Bool-cases (leb n (str_len s))) [
  | inl fits ↦
      let cut : split_at (str_len s - n) s ≡ some (l, r) = ground (arith, fits, h) in
      let parts = split_at-append (str_len s - n) s l r cut in
      (
        parts,
        ground (
          arith,
          fits,
          split_bytes (str_len s - n) s l r cut,
          ap str_len parts,
          str_len-append l r,
        ),
      )
  | inr short ↦ absurd (ground (arith, short, h))
]

pub length_bytes : (s : Text) → length s ≤ str_len s
unfolding str_len char_len
length_bytes [] = omega arith
length_bytes (c ∷ s) = ground (arith, length_bytes s)
