-- ===== src/Common/Slices.antt =====
-- Parts of Rust's `str` that cut and replace: byte slices, suffixes and removals.
use trading_terminal_cluster.Common.{ℕ, zero, suc, ◌-◌, [], ◌∷◌, Option, none, some}
use trading_terminal_cluster.Common.Tests.{if◌then◌else◌, leb, nat_beq}
use trading_terminal_cluster.Common.Lists.{length}
use trading_terminal_cluster.Common.Eq.{◌==◌, nat_eq, list_eq}
use trading_terminal_cluster.Common.Text.{Text, char_len, str_len, starts_with}

-- `(&s[..n], &s[n..])`; none is a panic: past the end, or inside a code point.
unfoldable pub split_at : ℕ → Text → Option (Text × Text)
unfolding char_len
split_at zero s = some ([], s)
split_at (suc n) [] = none
split_at (suc n) (c ∷ s) =
    let rest = split_at (suc n - char_len c) s in
    if leb (char_len c) (suc n)
    then (elim rest [ none ↦ none | some (l, r) ↦ some (c ∷ l, r) ])
    else none

-- The text before the last `n` bytes and these bytes.
unfoldable pub split_from_end : ℕ → Text → Option (Text × Text)
unfolding split_at str_len
split_from_end n s = if leb n (str_len s) then split_at (str_len s - n) s else none

-- `strip_suffix`: the text before a suffix that is there.
unfoldable pub strip_suffix : Text → Text → Option Text
strip_suffix p [] = if p == [] then some [] else none
strip_suffix p (c ∷ s) =
    let rest = strip_suffix p s in
    if p == c ∷ s then some [] else (elim rest [ none ↦ none | some l ↦ some (c ∷ l) ])

-- `replace(p, "")` at a text `p` that is not empty, with so many code points still to leave out.
unfoldable pub remove_text_from : Text → ℕ → Text → Text
unfolding starts_with
remove_text_from p k [] = []
remove_text_from p (suc k) (c ∷ s) = remove_text_from p k s
remove_text_from p zero (c ∷ s) =
    let cut = remove_text_from p (length p - 1) s in
    let rest = remove_text_from p 0 s in if starts_with p (c ∷ s) then cut else c ∷ rest

unfoldable pub remove_text : Text → Text → Text
unfolding remove_text_from
remove_text p s = remove_text_from p 0 s

-- `replace(c, "")`, and a filter that drops `c`.
unfoldable pub remove_char : ℕ → Text → Text
remove_char c [] = []
remove_char c (x ∷ s) = if nat_beq x c then remove_char c s else x ∷ remove_char c s
