-- ===== src/Common/Text.antt =====
-- Text as a list of Unicode code points, and the parts of Rust's `str` that the program uses.
use Prim.Native.Nat.{ℕ, zero, suc, ◌+◌, ◌*◌, ◌%◌}
use Prim.Native.Char.{code}
use Prim.Native.String.{String}
use mathlib.Core.Bool.{Bool, true, false, ◌&&◌, ◌||◌}
use mathlib.Core.List.{List, [], ◌∷◌}
use mathlib.Core.Option.{Option, none, some}
use trading_terminal_cluster.Common.Tests.{ltb, leb, nat_beq, if◌then◌else◌}

abbrev pub Text : Type 0
Text = List ℕ

-- The code points of a literal.
abbrev pub codes : String → Text
codes String.[] = []
codes (String.◌∷◌ c s) = code c ∷ codes s

unfoldable pub is_digit : ℕ → Bool
is_digit c = leb b'0' c && leb c b'9'

unfoldable pub is_alphanumeric : ℕ → Bool
unfolding is_digit
is_alphanumeric c = is_digit c || leb b'A' c && leb c b'Z' || leb b'a' c && leb c b'z'

-- `char::is_whitespace`: the code points with the property White_Space.
unfoldable pub is_whitespace : ℕ → Bool
is_whitespace c =
    leb 9 c && leb c 13
    || nat_beq c 32
    || nat_beq c 0x85
    || nat_beq c 0xa0
    || nat_beq c 0x1680
    || leb 0x2000 c && leb c 0x200a
    || nat_beq c 0x2028
    || nat_beq c 0x2029
    || nat_beq c 0x202f
    || nat_beq c 0x205f
    || nat_beq c 0x3000

unfoldable pub all_chars : (ℕ → Bool) → Text → Bool
all_chars p [] = true
all_chars p (c ∷ s) = p c && all_chars p s

-- The bytes that a code point takes in UTF-8, and `str::len`.
unfoldable pub char_len : ℕ → ℕ
char_len c = if ltb c 0x80 then 1 else if ltb c 0x800 then 2 else if ltb c 0x10000 then 3 else 4

unfoldable pub str_len : Text → ℕ
unfolding char_len
str_len [] = 0
str_len (c ∷ s) = char_len c + str_len s

unfoldable pub trim_start : (ℕ → Bool) → Text → Text
trim_start p [] = []
trim_start p (c ∷ s) = if p c then trim_start p s else c ∷ s

-- `trim_end_matches`: what is left after the last code point that does not match.
unfoldable pub trim_end : (ℕ → Bool) → Text → Text
trim_end p [] = []
trim_end p (c ∷ s) = elim (trim_end p s) [ [] ↦ if p c then [] else c ∷ [] | d ∷ r ↦ c ∷ d ∷ r ]

unfoldable pub trim : Text → Text
unfolding trim_start trim_end is_whitespace
trim s = trim_end is_whitespace (trim_start is_whitespace s)

-- `find` of one code point: the text before it and the text after it.
unfoldable pub split_once : ℕ → Text → Option (Text × Text)
split_once c [] = none
split_once c (x ∷ s) =
    if nat_beq x c
    then some ([], s)
    else (elim (split_once c s) [ none ↦ none | some (l, r) ↦ some (x ∷ l, r) ])

unfoldable pub strip_prefix : Text → Text → Option Text
strip_prefix [] s = some s
strip_prefix (c ∷ p) [] = none
strip_prefix (c ∷ p) (d ∷ s) = if nat_beq c d then strip_prefix p s else none

-- Does the text end with these code points?
unfoldable pub ends_with_char : ℕ → Text → Bool
ends_with_char c [] = false
ends_with_char c (x ∷ []) = nat_beq x c
ends_with_char c (x ∷ y ∷ s) = ends_with_char c (y ∷ s)

unfoldable pub starts_with : Text → Text → Bool
starts_with [] s = true
starts_with (c ∷ p) [] = false
starts_with (c ∷ p) (d ∷ s) = nat_beq c d && starts_with p s

-- The bytes that may follow a byte of UTF-8, each in its range.
unfoldable pub utf8_follow : ℕ → Option (List (ℕ × ℕ))
utf8_follow b =
    let more : ℕ × ℕ = (0x80, 0xbf) in
    if ltb b 0x80
    then some []
    else if leb 0xc2 b && leb b 0xdf
    then some (more ∷ [])
    else if nat_beq b 0xe0
    then some ((0xa0, 0xbf) ∷ more ∷ [])
    else if nat_beq b 0xed
    then some ((0x80, 0x9f) ∷ more ∷ [])
    else if leb 0xe1 b && leb b 0xef
    then some (more ∷ more ∷ [])
    else if nat_beq b 0xf0
    then some ((0x90, 0xbf) ∷ more ∷ more ∷ [])
    else if leb 0xf1 b && leb b 0xf3
    then some (more ∷ more ∷ more ∷ [])
    else if nat_beq b 0xf4
    then some ((0x80, 0x8f) ∷ more ∷ more ∷ [])
    else none

unfoldable pub utf8_from : List (ℕ × ℕ) → List ℕ → Bool
unfolding utf8_follow
utf8_from [] [] = true
utf8_from ((low, high) ∷ due) [] = false
utf8_from ((low, high) ∷ due) (b ∷ s) = leb low b && leb b high && utf8_from due s
utf8_from [] (b ∷ s) = elim (utf8_follow b) [ none ↦ false | some due ↦ utf8_from due s ]

-- Are the bytes UTF-8?
unfoldable pub is_utf8 : List ℕ → Bool
unfolding utf8_from
is_utf8 s = utf8_from [] s

-- The code points of UTF-8, from the bits read so far and the bytes that are due.
unfoldable pub chars_from : ℕ → ℕ → List ℕ → Text
chars_from acc due [] = []
chars_from acc zero (b ∷ s) =
    let ascii = chars_from 0 0 s in
    let two = chars_from (b % 32) 1 s in
    let three = chars_from (b % 16) 2 s in
    let four = chars_from (b % 8) 3 s in
    if ltb b 0x80 then b ∷ ascii else if ltb b 0xe0 then two else if ltb b 0xf0 then three else four
chars_from acc (suc due) (b ∷ s) =
    let next = acc * 64 + b % 64 in
    let more = chars_from next due s in
    let last = chars_from 0 0 s in if nat_beq due 0 then next ∷ last else more

unfoldable pub chars : List ℕ → Text
unfolding chars_from
chars s = chars_from 0 0 s

unfoldable pub contains : Text → Text → Bool
unfolding starts_with
contains p [] = starts_with p []
contains p (c ∷ s) = starts_with p (c ∷ s) || contains p s

-- `rsplit(c).next()`: what stands behind the last `c`, in a text that `found` was read before.
unfoldable pub after_last_from : Text → ℕ → Text → Text
after_last_from found c [] = found
after_last_from found c (x ∷ s) = after_last_from (if nat_beq x c then s else found) c s

unfoldable pub after_last : ℕ → Text → Text
unfolding after_last_from
after_last c s = after_last_from s c s
