-- ===== src/Adapters/Names.antt =====
-- The names of instruments on the wire and in the program: OKX's and BingX's, of scale.rs of
-- crates/exchange-okx and crates/exchange-bingx.
use mathlib.Core.Path.{subst}
use trading_terminal_cluster.Common.{
  ◌≤◌, [], ◌∷◌, ◌++◌, Bool, true, false, Option, none, some, ◌≡◌, refl, sym, ap, ◌∙◌, inl, inr,
  arith,
}
use trading_terminal_cluster.Common.Tests.{if◌then◌else◌, Option-cases}
use trading_terminal_cluster.Common.Lists.{length}
use trading_terminal_cluster.Common.Eq.{nat_eq, list_eq}
use trading_terminal_cluster.Common.Text.{Text, codes, starts_with, all_chars}
use trading_terminal_cluster.Common.Json.{and_then-some}
use trading_terminal_cluster.Common.Slices.{
  split_from_end, strip_suffix, remove_text, remove_text_from, remove_char,
}
use trading_terminal_cluster.Common.Cuts.{
  head_tail, other_than, Without, Without-append, remove_char-append, remove_char-Without,
  strip_suffix-append, split_from_end-append, length_bytes,
}
use trading_terminal_cluster.Common.Sub.{append_nil}
use trading_terminal_cluster.Adapters.Okx.{base_quote, to_okx_inst_id, normalize_inst_id}

-- With a hyphen before it, the quote does not read as the mark of a swap.
abbrev Unmarked : Text → Type 0
Unmarked quote =
    (starts_with (codes "SWAP") quote ≡ false)
    × (starts_with (codes "SWAP") (quote ++ codes "-SWAP") ≡ false)

short_Unmarked : (quote : Text) → length quote ≤ 3 → Unmarked quote
unfolding starts_with
short_Unmarked [] h = (refl, refl)
short_Unmarked (a ∷ []) h = (ground arith, ground arith)
short_Unmarked (a ∷ b ∷ []) h = (ground arith, ground arith)
short_Unmarked (a ∷ b ∷ c ∷ []) h = (ground arith, ground arith)
short_Unmarked (a ∷ b ∷ c ∷ d ∷ quote) h = absurd (omega (arith, h))

-- What the two parts of a symbol are.
abbrev Parts : Text → Option (Text × Text) → Type 0
Parts s none = Unit
Parts s (some (base, quote)) = (s ≡ base ++ quote) × Unmarked quote

last_three :
    (s base quote : Text) → split_from_end 3 s ≡ some (base, quote) → Parts s (some (base, quote))
last_three s base quote h =
    let (parts, bytes) = split_from_end-append 3 s base quote h in
    (parts, short_Unmarked quote (omega (arith, length_bytes quote, bytes)))

base_quote-Parts :
    (s base quote : Text) → base_quote s ≡ some (base, quote) → Parts s (some (base, quote))
unfolding base_quote starts_with
base_quote-Parts s base quote h = elim (Option-cases (strip_suffix (codes "USDT") s)) [
  | inr (l, hit) ↦
      let same : some (l, codes "USDT") ≡ some (base, quote) = ground (arith, hit, h) in
      subst (Parts s) same (strip_suffix-append (codes "USDT") s l hit, (refl, refl))
  | inl miss ↦ elim (Option-cases (strip_suffix (codes "USDC") s)) [
    | inr (l, hit) ↦
        let same : some (l, codes "USDC") ≡ some (base, quote) = ground (arith, miss, hit, h) in
        subst (Parts s) same (strip_suffix-append (codes "USDC") s l hit, (refl, refl))
    | inl missed ↦ last_three s base quote (ground (arith, miss, missed, h))
  ]
]

-- The mark of a swap is not found before a hyphen.
remove_text-front :
    (base t : Text)
    → Without b'-' base
    → remove_text_from (codes "-SWAP") 0 (base ++ t) ≡ base ++ remove_text_from (codes "-SWAP") 0 t
unfolding remove_text_from starts_with all_chars
remove_text-front [] t h = refl
remove_text-front (c ∷ base) t h =
    let (first, others) = head_tail (other_than b'-' c) _ h in
    ground (arith, first, remove_text-front base t others)

abbrev tail : Bool → Text
tail is_swap = if is_swap then codes "-SWAP" else []

tail-Unmarked :
    (quote : Text) (is_swap : Bool)
    → Unmarked quote
    → starts_with (codes "SWAP") (quote ++ tail is_swap) ≡ false
tail-Unmarked quote true h = h.1
tail-Unmarked quote false h = rw (append_nil quote) h.0

no_tail : (is_swap : Bool) → remove_text_from (codes "-SWAP") 0 (tail is_swap) ≡ []
unfolding remove_text_from starts_with
no_tail true = refl
no_tail false = refl

remove_mark :
    (base quote : Text) (is_swap : Bool)
    → Without b'-' base
    → Without b'-' quote
    → Unmarked quote
    → remove_text_from (codes "-SWAP") 0 (base ++ (b'-' ∷ (quote ++ tail is_swap)))
      ≡ base ++ (b'-' ∷ quote)
unfolding remove_text_from starts_with
remove_mark base quote is_swap hb hq unmarked =
    remove_text-front base (b'-' ∷ (quote ++ tail is_swap)) hb
    ∙ ap (λ t. base ++ t) (rw (tail-Unmarked quote is_swap unmarked) refl)
    ∙ ap (λ t. base ++ (b'-' ∷ t))
        (remove_text-front quote (tail is_swap) hq
          ∙ ap (λ t. quote ++ t) (no_tail is_swap)
          ∙ append_nil quote)

remove_hyphen :
    (base quote : Text)
    → Without b'-' base
    → Without b'-' quote
    → remove_char b'-' (base ++ (b'-' ∷ quote)) ≡ base ++ quote
unfolding remove_char
remove_hyphen base quote hb hq =
    remove_char-append b'-' base (b'-' ∷ quote)
    ∙ ap (λ t. t ++ remove_char b'-' quote) (remove_char-Without b'-' base hb)
    ∙ ap (λ t. base ++ t) (remove_char-Without b'-' quote hq)

-- The hyphen of a name, and what the exchange puts behind it, is removed again.
back_again :
    (to_uppercase : Text → Text) (s base quote : Text) (is_swap : Bool)
    → to_uppercase s ≡ s
    → Without b'-' s
    → Parts s (some (base, quote))
    → normalize_inst_id to_uppercase (base ++ (b'-' ∷ (quote ++ tail is_swap))) ≡ s
unfolding normalize_inst_id remove_text
back_again to_uppercase s base quote is_swap upper plain (parts, unmarked) =
    let (hb, hq) = Without-append b'-' base quote (subst (Without b'-') parts plain) in
    ap (λ t. to_uppercase (remove_char b'-' t)) (remove_mark base quote is_swap hb hq unmarked)
    ∙ ap to_uppercase (remove_hyphen base quote hb hq ∙ sym parts)
    ∙ upper

abbrev name_of : Bool → Text × Text → Option Text
name_of is_swap (base, quote) = some (base ++ (b'-' ∷ (quote ++ tail is_swap)))

-- A symbol in upper case and without a hyphen is what OKX's name for it, of its swap or of its spot
-- pair, is read back as, where there is such a name.
pub normalize_inst_id-to_okx_inst_id :
    (to_uppercase : Text → Text) (symbol : Text) (is_swap : Bool) (inst_id : Text)
    → to_uppercase symbol ≡ symbol
    → Without b'-' symbol
    → to_okx_inst_id to_uppercase symbol is_swap ≡ some inst_id
    → normalize_inst_id to_uppercase inst_id ≡ symbol
unfolding to_okx_inst_id
normalize_inst_id-to_okx_inst_id to_uppercase symbol is_swap inst_id upper plain h =
    let ((base, quote), found, named) =
      and_then-some (base_quote (to_uppercase symbol)) (name_of is_swap) h in
    let same : base ++ (b'-' ∷ (quote ++ tail is_swap)) ≡ inst_id = ground (arith, named) in
    let parts =
      base_quote-Parts symbol base quote
        (subst (λ t. base_quote t ≡ some (base, quote)) upper found) in
    ap (normalize_inst_id to_uppercase) (sym same)
    ∙ back_again to_uppercase symbol base quote is_swap upper plain parts
