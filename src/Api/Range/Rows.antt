-- ===== src/Api/Range/Rows.antt =====
-- The loop of `cluster_range` of crates/cluster-api/src/cluster_history.rs that turns the lines of
-- ClickHouse's answer into columns. serde_json is a parameter: what it makes of a line.
use Prim.Native.Nat.{min}
use trading_terminal_cluster.Common.{
  ℕ, suc, List, [], ◌∷◌, ◌++◌, Bool, true, false, Option, none, some,
}
use trading_terminal_cluster.Common.Tests.{if◌then◌else◌, leb, nat_beq}
use trading_terminal_cluster.Common.Int.{ℤ, pos, int_beq}
use trading_terminal_cluster.Common.Machine.{max_i64, max_u32}
use trading_terminal_cluster.Common.Text.{Text}
use trading_terminal_cluster.Common.Parse.{parse_signed_to, parse_unsigned_to}
use trading_terminal_cluster.Api.Range.{max_bars}

-- `serde_json::Value`: a number by what its `as_i64` and `as_u64` return, a string, or another one.
pub data Value : Type 0 where
  number : Option ℤ → Option ℕ → Value
  string : Text → Value
  other_value : Value

unfoldable pub json_i64 : Value → Option ℤ
unfolding parse_signed_to
json_i64 (number as_i64 as_u64) = as_i64
json_i64 (string s) = parse_signed_to max_i64 s
json_i64 other_value = none

unfoldable pub json_u32 : Value → Option ℕ
unfolding parse_unsigned_to
json_u32 (number as_i64 none) = none
json_u32 (number as_i64 (some n)) = if leb n max_u32 then some n else none
json_u32 (string s) = parse_unsigned_to max_u32 s
json_u32 other_value = none

-- The columns of a `RangeResponse`; its other fields are the request's.
pub record Columns : Type 0 where
  pub price_scale : ℕ
  pub qty_scale : ℕ
  pub n : ℕ
  pub window_start_ms : List ℤ
  pub price : List ℤ
  pub bid_qty : List ℤ
  pub ask_qty : List ℤ
  pub trades : List ℕ
  pub windows_n : ℕ
  pub windows : List ℤ
  pub open_price : List ℤ
  pub close_price : List ℤ
  pub high_price : List ℤ
  pub low_price : List ℤ

abbrev pub no_columns : Columns
no_columns = record {
  price_scale = 0;
  qty_scale = 0;
  n = 0;
  window_start_ms = [];
  price = [];
  bid_qty = [];
  ask_qty = [];
  trades = [];
  windows_n = 0;
  windows = [];
  open_price = [];
  close_price = [];
  high_price = [];
  low_price = [];
}

-- The five values that every row has.
pub record Row : Type 0 where
  pub ts : ℤ
  pub price : ℤ
  pub bid_qty : ℤ
  pub ask_qty : ℤ
  pub trades : ℕ

-- The row that starts a line of at least five values, and what follows; else the line is passed over.
unfoldable pub read_row : List Value → Option (Row × List Value)
unfolding json_i64 json_u32
read_row (a ∷ b ∷ c ∷ d ∷ e ∷ rest) = elim (json_i64 a) [
  | none ↦ none
  | some ts ↦ elim (json_i64 b) [
    | none ↦ none
    | some price ↦ elim (json_i64 c) [
      | none ↦ none
      | some bid ↦ elim (json_i64 d) [
        | none ↦ none
        | some ask ↦ elim (json_u32 e) [
          | none ↦ none
          | some trades ↦ some (
            record { ts = ts; price = price; bid_qty = bid; ask_qty = ask; trades = trades },
            rest,
          )
        ]
      ]
    ]
  ]
]
read_row _ = none

abbrev pub scale_or : ℕ → Value → ℕ
scale_or old v = elim (json_u32 v) [ none ↦ old | some s ↦ min s 255 ]

-- The scales come from the first row that is kept, if it has them.
unfoldable pub set_scales : Columns → List Value → Columns
unfolding json_u32
set_scales out (ps ∷ qs ∷ rest) =
    if nat_beq out.n 0
    then record out {
      price_scale = scale_or out.price_scale ps;
      qty_scale = scale_or out.qty_scale qs;
    }
    else out
set_scales out _ = out

abbrev pub int_or_zero : Value → ℤ
int_or_zero v = elim (json_i64 v) [ none ↦ pos 0 | some z ↦ z ]

-- The bar of a line of at least eleven values, else zeros.
unfoldable pub bar_of : List Value → ℤ × ℤ × ℤ × ℤ
unfolding json_i64
bar_of (ps ∷ qs ∷ o ∷ c ∷ h ∷ l ∷ rest) =
    (int_or_zero o, int_or_zero c, int_or_zero h, int_or_zero l)
bar_of _ = (pos 0, pos 0, pos 0, pos 0)

abbrev pub is_last : Option ℤ → ℤ → Bool
is_last none ts = false
is_last (some t) ts = int_beq t ts

unfoldable pub push_window : Columns → ℤ → ℤ × ℤ × ℤ × ℤ → Columns
push_window out ts (o, c, h, l) = record out {
  windows = out.windows ++ (ts ∷ []);
  open_price = out.open_price ++ (o ∷ []);
  close_price = out.close_price ++ (c ∷ []);
  high_price = out.high_price ++ (h ∷ []);
  low_price = out.low_price ++ (l ∷ []);
  windows_n = suc out.windows_n;
}

unfoldable pub push_row : Columns → Row → Columns
push_row out r = record out {
  window_start_ms = out.window_start_ms ++ (r.ts ∷ []);
  price = out.price ++ (r.price ∷ []);
  bid_qty = out.bid_qty ++ (r.bid_qty ∷ []);
  ask_qty = out.ask_qty ++ (r.ask_qty ∷ []);
  trades = out.trades ++ (r.trades ∷ []);
  n = suc out.n;
}

-- The columns and `last_ts` after a row that is kept.
unfoldable pub keep_row : Columns → Option ℤ → Row → List Value → Columns
unfolding set_scales bar_of push_window push_row
keep_row out last_ts r rest =
    let scaled = set_scales out rest in
    push_row (if is_last last_ts r.ts then scaled else push_window scaled r.ts (bar_of rest)) r

-- `from_str` and `as_array` of a line; `none` is an error, or a value that is no array.
module _ (parse_line : Text → Option (List Value)) where
  unfoldable pub row_of_line : Text → Option (Row × List Value)
  unfolding read_row
  row_of_line [] = none
  row_of_line (c ∷ s) = elim (parse_line (c ∷ s)) [ none ↦ none | some arr ↦ read_row arr ]

  unfoldable pub parse_rows : List Text → Option ℤ → Columns → Columns
  unfolding row_of_line keep_row
  parse_rows [] last_ts out = out
  parse_rows (line ∷ lines) last_ts out = elim (row_of_line line) [
    | none ↦ parse_rows lines last_ts out
    | some (r, rest) ↦
        let kept = keep_row out last_ts r rest in
        elim (leb max_bars kept.n) [ true ↦ kept | false ↦ parse_rows lines (some r.ts) kept ]
  ]
