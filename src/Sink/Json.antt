-- ===== src/Sink/Json.antt =====
-- `serialize_jsoneachrow` of crates/clickhouse-sink/src/lib.rs, over serde_json as a parameter.
use trading_terminal_cluster.Common.{
  ℕ, suc, List, [], ◌∷◌, ◌++◌, ◌≡◌, refl, sym, ap, ◌∙◌, arith, true, not, Option, none, some,
}
use trading_terminal_cluster.Common.Tests.{if◌then◌else◌, ltb, nat_beq, lt→ltb}
use trading_terminal_cluster.Common.Text.{Text, all_chars}
use trading_terminal_cluster.Common.Sub.{append_assoc, append_nil}
use trading_terminal_cluster.Sink.{ClusterRow}

-- `serde_json::to_string` of a row; `none` is its error.
module _ (to_json : ClusterRow → Option Text) where
  unfoldable pub push_rows : ℕ → Text → List ClusterRow → Option Text
  push_rows i out [] = some out
  push_rows i out (row ∷ rows) =
      let separated = if ltb 0 i then out ++ (b'\n' ∷ []) else out in
      elim (to_json row) [ none ↦ none | some line ↦ push_rows (suc i) (separated ++ line) rows ]

  unfoldable pub serialize_jsoneachrow : List ClusterRow → Option Text
  unfolding push_rows
  serialize_jsoneachrow rows = push_rows 0 [] rows

-- The lines of a body, as ClickHouse reads it.
abbrev first_line : ℕ → List Text → List Text
first_line c [] = (c ∷ []) ∷ []
first_line c (l ∷ ls) = (c ∷ l) ∷ ls

unfoldable pub lines : Text → List Text
lines [] = [] ∷ []
lines (c ∷ s) = if nat_beq c b'\n' then [] ∷ lines s else first_line c (lines s)

pub data Serialized (to_json : ClusterRow → Option Text)
    : List ClusterRow → List Text → Type 0 where
  no_rows : Serialized to_json [] []
  one_more :
      {r : ClusterRow} {l : Text} {rs : List ClusterRow} {ls : List Text}
      → to_json r ≡ some l
      → all_chars (λ c. not (nat_beq c b'\n')) l ≡ true
      → Serialized to_json rs ls
      → Serialized to_json (r ∷ rs) (l ∷ ls)

-- The lines with a separator before each.
abbrev joined : List Text → Text
joined [] = []
joined (l ∷ ls) = (b'\n' ∷ []) ++ (l ++ joined ls)

push_rows-joined :
    (to_json : ClusterRow → Option Text) (i : ℕ) (out : Text) (rs : List ClusterRow)
    (ls : List Text)
    → Serialized to_json rs ls
    → push_rows to_json (suc i) out rs ≡ some (out ++ joined ls)
unfolding push_rows
push_rows-joined to_json i out [] [] no_rows = ap some (sym (append_nil out))
push_rows-joined to_json i out [] (l ∷ ls) s = elim s [ ]
push_rows-joined to_json i out (r ∷ rs) [] s = elim s [ ]
push_rows-joined to_json i out (r ∷ rs) (l ∷ ls) (one_more e clean s) =
    rw (e, push_rows)
      (rw (lt→ltb 0 (suc i) (omega arith)) (
        push_rows-joined to_json (suc i) ((out ++ (b'\n' ∷ [])) ++ l) rs ls s
        ∙ ap some (
            append_assoc (out ++ (b'\n' ∷ [])) l (joined ls)
            ∙ append_assoc out (b'\n' ∷ []) (l ++ joined ls))))

lines-joined :
    (to_json : ClusterRow → Option Text) (l : Text) (rs : List ClusterRow) (ls : List Text)
    → all_chars (λ c. not (nat_beq c b'\n')) l ≡ true
    → Serialized to_json rs ls
    → lines (l ++ joined ls) ≡ l ∷ ls
unfolding lines all_chars
lines-joined to_json [] [] [] clean no_rows = refl
lines-joined to_json [] [] (l ∷ ls) clean s = elim s [ ]
lines-joined to_json [] (r ∷ rs) [] clean s = elim s [ ]
lines-joined to_json [] (r ∷ rs) (l ∷ ls) clean (one_more e c s) =
    ap (◌∷◌ []) (lines-joined to_json l rs ls c s)
lines-joined to_json (c ∷ l) rs ls clean s = ground (arith, lines-joined to_json l rs ls)

-- A body of at least one row, each serialized without a newline, is one line per row, in order,
-- without a newline at its end.
pub serialize_jsoneachrow-lines :
    (to_json : ClusterRow → Option Text) (r : ClusterRow) (rs : List ClusterRow) (ls : List Text)
    → Serialized to_json (r ∷ rs) ls
    → (body : Text) × (serialize_jsoneachrow to_json (r ∷ rs) ≡ some body) × (lines body ≡ ls)
unfolding serialize_jsoneachrow push_rows
serialize_jsoneachrow-lines to_json r rs [] s = elim s [ ]
serialize_jsoneachrow-lines to_json r rs (l ∷ ls) (one_more e clean s) = (
  l ++ joined ls,
  rw (e, push_rows) (push_rows-joined to_json 0 l rs ls s),
  lines-joined to_json l rs ls clean s,
)
