-- ===== src/Api/Range/Columns.antt =====
-- What the columns of crates/cluster-api/src/cluster_history.rs hold after the loop.
use mathlib.Core.List.{map, map-append}
use mathlib.Core.Path.{subst}
use trading_terminal_cluster.Common.{
  ℕ, zero, suc, ◌+◌, ◌≤◌, ◌<◌, List, [], ◌∷◌, ◌++◌, ◌≡◌, refl, sym, ap, ◌∙◌, arith, Bool, true,
  false, Option, none, some, inl, inr,
}
use trading_terminal_cluster.Common.Lists.{length, take, length-append}
use trading_terminal_cluster.Common.Tests.{if◌then◌else◌, leb, nat_beq, Bool-cases, Option-cases}
use trading_terminal_cluster.Common.Int.{ℤ, pos}
use trading_terminal_cluster.Common.Text.{Text}
use trading_terminal_cluster.Common.Sub.{append_assoc, append_nil}
use trading_terminal_cluster.Api.Range.{max_bars}
use trading_terminal_cluster.Api.Range.Rows.{
  Value, Columns, no_columns, Row, is_last, keep_row, push_row, push_window, set_scales, bar_of,
  row_of_line, parse_rows, read_row, json_i64, json_u32,
}

abbrev pub Bar : Type 0
Bar = ℤ × ℤ × ℤ × ℤ

-- The value at a position of a line, from 0.
abbrev value_at : ℕ → List Value → Option Value
value_at n [] = none
value_at zero (v ∷ vs) = some v
value_at (suc n) (v ∷ vs) = value_at n vs

abbrev i64_at : ℕ → List Value → Option ℤ
i64_at n vs = elim (value_at n vs) [ none ↦ none | some v ↦ json_i64 v ]

abbrev u32_at : ℕ → List Value → Option ℕ
u32_at n vs = elim (value_at n vs) [ none ↦ none | some v ↦ json_u32 v ]

-- A price of the bar, which only a line of at least eleven values has.
abbrev bar_price : ℕ → List Value → ℤ
bar_price n vs = elim (value_at 10 vs) [
  | none ↦ pos 0
  | some last ↦ elim (i64_at n vs) [ none ↦ pos 0 | some z ↦ z ]
]

-- The row and the bar that a line's values are, each by its position.
pub record Reads (vs : List Value) (r : Row) (b : Bar) : Type 0 where
  pub ts : i64_at 0 vs ≡ some r.ts
  pub price : i64_at 1 vs ≡ some r.price
  pub bid_qty : i64_at 2 vs ≡ some r.bid_qty
  pub ask_qty : i64_at 3 vs ≡ some r.ask_qty
  pub trades : u32_at 4 vs ≡ some r.trades
  pub open_price : b.0 ≡ bar_price 7 vs
  pub close_price : b.1 ≡ bar_price 8 vs
  pub high_price : b.2 ≡ bar_price 9 vs
  pub low_price : b.3 ≡ bar_price 10 vs

-- The rows that the lines of an answer are: a line that is empty, no array, or without a row is passed
-- over.
pub data Told (parse_line : Text → Option (List Value))
    : List Text → List (Row × Bar) → Type 0 where
  none_left : Told parse_line [] []
  empty_line :
      {lines : List Text} {rows : List (Row × Bar)}
      → Told parse_line lines rows
      → Told parse_line ([] ∷ lines) rows
  no_array :
      {c : ℕ} {line : Text} {lines : List Text} {rows : List (Row × Bar)}
      → parse_line (c ∷ line) ≡ none
      → Told parse_line lines rows
      → Told parse_line ((c ∷ line) ∷ lines) rows
  no_row :
      {c : ℕ} {line : Text} {lines : List Text} {rows : List (Row × Bar)} {vs : List Value}
      → parse_line (c ∷ line) ≡ some vs
      → ((r : Row) (b : Bar) → ¬ Reads vs r b)
      → Told parse_line lines rows
      → Told parse_line ((c ∷ line) ∷ lines) rows
  one_row :
      {c : ℕ} {line : Text} {lines : List Text} {rows : List (Row × Bar)} {vs : List Value}
      {r : Row} {b : Bar}
      → parse_line (c ∷ line) ≡ some vs
      → Reads vs r b
      → Told parse_line lines rows
      → Told parse_line ((c ∷ line) ∷ lines) ((r, b) ∷ rows)

-- The first of each run of rows with the same time, after `last`.
abbrev pub starts : Option ℤ → List (Row × Bar) → List (Row × Bar)
starts last [] = []
starts last (x ∷ xs) = (if is_last last x.0.ts then [] else x ∷ []) ++ starts (some x.0.ts) xs

-- `new` is `old` with these rows behind it, and the bars that start a run.
pub record Appended (old new : Columns) (last : Option ℤ) (rows : List (Row × Bar)) : Type 0 where
  pub window_start_ms : new.window_start_ms ≡ old.window_start_ms ++ map (λ x. x.0.ts) rows
  pub price : new.price ≡ old.price ++ map (λ x. x.0.price) rows
  pub bid_qty : new.bid_qty ≡ old.bid_qty ++ map (λ x. x.0.bid_qty) rows
  pub ask_qty : new.ask_qty ≡ old.ask_qty ++ map (λ x. x.0.ask_qty) rows
  pub trades : new.trades ≡ old.trades ++ map (λ x. x.0.trades) rows
  pub n : new.n ≡ old.n + length rows
  pub windows : new.windows ≡ old.windows ++ map (λ x. x.0.ts) (starts last rows)
  pub open_price : new.open_price ≡ old.open_price ++ map (λ x. x.1.0) (starts last rows)
  pub close_price : new.close_price ≡ old.close_price ++ map (λ x. x.1.1) (starts last rows)
  pub high_price : new.high_price ≡ old.high_price ++ map (λ x. x.1.2) (starts last rows)
  pub low_price : new.low_price ≡ old.low_price ++ map (λ x. x.1.3) (starts last rows)
  pub windows_n : new.windows_n ≡ old.windows_n + length (starts last rows)

Appended-none : (out : Columns) (last : Option ℤ) → Appended out out last []
Appended-none out last = record {
  window_start_ms = sym (append_nil out.window_start_ms);
  price = sym (append_nil out.price);
  bid_qty = sym (append_nil out.bid_qty);
  ask_qty = sym (append_nil out.ask_qty);
  trades = sym (append_nil out.trades);
  n = omega arith;
  windows = sym (append_nil out.windows);
  open_price = sym (append_nil out.open_price);
  close_price = sym (append_nil out.close_price);
  high_price = sym (append_nil out.high_price);
  low_price = sym (append_nil out.low_price);
  windows_n = omega arith;
}

-- Two steps.
glue {ℓ} : {A : Type ℓ} (x y z u v : List A) → y ≡ x ++ u → z ≡ y ++ v → z ≡ x ++ (u ++ v)
glue x y z u v h k = k ∙ ap (λ w. w ++ v) h ∙ append_assoc x u v

add_up {ℓ} :
    {A : Type ℓ} (x y z : ℕ) (u v : List A)
    → y ≡ x + length u
    → z ≡ y + length v
    → z ≡ x + length (u ++ v)
add_up x y z u v h k = omega (arith, h, k, length-append u v)

-- A column of the runs' first rows.
glue_starts {ℓ} :
    {A : Type ℓ} (f : Row × Bar → A) (x y z : List A) (s t : List (Row × Bar))
    → y ≡ x ++ map f (s ++ [])
    → z ≡ y ++ map f t
    → z ≡ x ++ map f (s ++ t)
glue_starts f x y z s t h k =
    glue x y z _ _ (h ∙ ap (λ w. x ++ map f w) (append_nil s)) k
    ∙ ap (λ w. x ++ w) (sym (map-append f s t))

Appended-cons :
    (a b c : Columns) (last : Option ℤ) (r : Row × Bar) (rs : List (Row × Bar))
    → Appended a b last (r ∷ [])
    → Appended b c (some r.0.ts) rs
    → Appended a c last (r ∷ rs)
Appended-cons a b c last r rs h k =
    let s = if is_last last r.0.ts then [] else r ∷ [] in
    let t = starts (some r.0.ts) rs in
    record {
      window_start_ms =
          glue a.window_start_ms b.window_start_ms c.window_start_ms _ _ h.window_start_ms
            k.window_start_ms;
      price = glue a.price b.price c.price _ _ h.price k.price;
      bid_qty = glue a.bid_qty b.bid_qty c.bid_qty _ _ h.bid_qty k.bid_qty;
      ask_qty = glue a.ask_qty b.ask_qty c.ask_qty _ _ h.ask_qty k.ask_qty;
      trades = glue a.trades b.trades c.trades _ _ h.trades k.trades;
      n = omega (arith, h.n, k.n);
      windows = glue_starts (λ x. x.0.ts) a.windows b.windows c.windows s t h.windows k.windows;
      open_price =
          glue_starts (λ x. x.1.0) a.open_price b.open_price c.open_price s t h.open_price
            k.open_price;
      close_price =
          glue_starts (λ x. x.1.1) a.close_price b.close_price c.close_price s t h.close_price
            k.close_price;
      high_price =
          glue_starts (λ x. x.1.2) a.high_price b.high_price c.high_price s t h.high_price
            k.high_price;
      low_price =
          glue_starts (λ x. x.1.3) a.low_price b.low_price c.low_price s t h.low_price k.low_price;
      windows_n =
          add_up a.windows_n b.windows_n c.windows_n s t
            (h.windows_n ∙ ap (λ w. a.windows_n + length w) (append_nil s)) k.windows_n;
    }

-- The scales are no column.
set_scales-Appended :
    (out new : Columns) (rest : List Value) (last : Option ℤ) (rows : List (Row × Bar))
    → Appended (set_scales out rest) new last rows
    → Appended out new last rows
unfolding set_scales
set_scales-Appended out new [] last rows h = h
set_scales-Appended out new (p ∷ []) last rows h = h
set_scales-Appended out new (p ∷ q ∷ rest) last rows h = elim (Bool-cases (nat_beq out.n 0)) [
  | inl first ↦
      let k = rw first at h in
      record {
        window_start_ms = k.window_start_ms;
        price = k.price;
        bid_qty = k.bid_qty;
        ask_qty = k.ask_qty;
        trades = k.trades;
        n = k.n;
        windows = k.windows;
        open_price = k.open_price;
        close_price = k.close_price;
        high_price = k.high_price;
        low_price = k.low_price;
        windows_n = k.windows_n;
      }
  | inr later ↦ rw later at h
]

push-Appended :
    (b : Bool) (out : Columns) (last : Option ℤ) (r : Row) (bar : Bar)
    → is_last last r.ts ≡ b
    → Appended out (push_row (if b then out else push_window out r.ts bar) r) last ((r, bar) ∷ [])
unfolding push_row push_window
push-Appended true out last r bar e = record {
  window_start_ms = refl;
  price = refl;
  bid_qty = refl;
  ask_qty = refl;
  trades = refl;
  n = omega arith;
  windows = rw e (sym (append_nil out.windows));
  open_price = rw e (sym (append_nil out.open_price));
  close_price = rw e (sym (append_nil out.close_price));
  high_price = rw e (sym (append_nil out.high_price));
  low_price = rw e (sym (append_nil out.low_price));
  windows_n = rw e (omega arith);
}
push-Appended false out last r (o, c, h, l) e = record {
  window_start_ms = refl;
  price = refl;
  bid_qty = refl;
  ask_qty = refl;
  trades = refl;
  n = omega arith;
  windows = rw e refl;
  open_price = rw e refl;
  close_price = rw e refl;
  high_price = rw e refl;
  low_price = rw e refl;
  windows_n = rw e (omega arith);
}

keep_row-Appended :
    (out : Columns) (last : Option ℤ) (r : Row) (rest : List Value)
    → Appended out (keep_row out last r rest) last ((r, bar_of rest) ∷ [])
unfolding keep_row
keep_row-Appended out last r rest =
    set_scales-Appended out _ rest last ((r, bar_of rest) ∷ [])
      (push-Appended (is_last last r.ts) (set_scales out rest) last r (bar_of rest) refl)

keep_row-n :
    (out : Columns) (last : Option ℤ) (r : Row) (rest : List Value)
    → (keep_row out last r rest).n ≡ suc out.n
keep_row-n out last r rest = omega (arith, (keep_row-Appended out last r rest).n)

le→leb : (a b : ℕ) → a ≤ b → leb a b ≡ true
le→leb a b h = ground arith

gt→leb : (a b : ℕ) → b < a → leb a b ≡ false
gt→leb a b h = ground arith

-- The rows of the lines that are kept, whatever their number.
abbrev pub rows_of_lines : (Text → Option (List Value)) → List Text → List (Row × Bar)
rows_of_lines parse_line [] = []
rows_of_lines parse_line (line ∷ lines) = elim (row_of_line parse_line line) [
  | none ↦ rows_of_lines parse_line lines
  | some (r, rest) ↦ (r, bar_of rest) ∷ rows_of_lines parse_line lines
]

kept_step :
    (parse_line : Text → Option (List Value)) (lines : List Text) (last : Option ℤ) (out : Columns)
    (k : ℕ) (r : Row) (rest : List Value)
    → out.n + suc k ≡ max_bars
    → ((j : ℕ)
        → (keep_row out last r rest).n + suc j ≡ max_bars
        → Appended
            (keep_row out last r rest)
            (parse_rows parse_line lines (some r.ts) (keep_row out last r rest))
            (some r.ts)
            (take (suc j) (rows_of_lines parse_line lines)))
    → Appended out
        (elim (leb max_bars (keep_row out last r rest).n) [
          | true ↦ keep_row out last r rest
          | false ↦ parse_rows parse_line lines (some r.ts) (keep_row out last r rest)
        ])
        last
        ((r, bar_of rest) ∷ take k (rows_of_lines parse_line lines))
kept_step parse_line lines last out zero r rest h next =
    rw (le→leb max_bars (keep_row out last r rest).n (omega (arith, h, keep_row-n out last r rest)))
      (keep_row-Appended out last r rest)
kept_step parse_line lines last out (suc k) r rest h next =
    rw (gt→leb max_bars (keep_row out last r rest).n (omega (arith, h, keep_row-n out last r rest)))
      (Appended-cons out (keep_row out last r rest) _ last (r, bar_of rest) _
        (keep_row-Appended out last r rest) (next k (omega (arith, h, keep_row-n out last r rest))))

bar_of-bar_price :
    (a b c d e : Value) (rest : List Value)
    → ((bar_of rest).0 ≡ bar_price 7 (a ∷ b ∷ c ∷ d ∷ e ∷ rest))
      × ((bar_of rest).1 ≡ bar_price 8 (a ∷ b ∷ c ∷ d ∷ e ∷ rest))
      × ((bar_of rest).2 ≡ bar_price 9 (a ∷ b ∷ c ∷ d ∷ e ∷ rest))
      × ((bar_of rest).3 ≡ bar_price 10 (a ∷ b ∷ c ∷ d ∷ e ∷ rest))
unfolding bar_of
bar_of-bar_price a b c d e [] = (refl, refl, refl, refl)
bar_of-bar_price a b c d e (_ ∷ []) = (refl, refl, refl, refl)
bar_of-bar_price a b c d e (_ ∷ _ ∷ []) = (refl, refl, refl, refl)
bar_of-bar_price a b c d e (_ ∷ _ ∷ _ ∷ []) = (refl, refl, refl, refl)
bar_of-bar_price a b c d e (_ ∷ _ ∷ _ ∷ _ ∷ []) = (refl, refl, refl, refl)
bar_of-bar_price a b c d e (_ ∷ _ ∷ _ ∷ _ ∷ _ ∷ []) = (refl, refl, refl, refl)
bar_of-bar_price a b c d e (_ ∷ _ ∷ _ ∷ _ ∷ _ ∷ _ ∷ rest) = (refl, refl, refl, refl)

read_row-Reads :
    (vs : List Value) (r : Row) (rest : List Value)
    → read_row vs ≡ some (r, rest)
    → Reads vs r (bar_of rest)
unfolding read_row
read_row-Reads [] r rest h = absurd (ground (arith, h))
read_row-Reads (_ ∷ []) r rest h = absurd (ground (arith, h))
read_row-Reads (_ ∷ _ ∷ []) r rest h = absurd (ground (arith, h))
read_row-Reads (_ ∷ _ ∷ _ ∷ []) r rest h = absurd (ground (arith, h))
read_row-Reads (_ ∷ _ ∷ _ ∷ _ ∷ []) r rest h = absurd (ground (arith, h))
read_row-Reads (a ∷ b ∷ c ∷ d ∷ e ∷ more) r rest h =
    let same : more ≡ rest = ground (arith, h) in
    let (o, cl, hi, lo) = bar_of-bar_price a b c d e more in
    subst (λ xs. Reads (a ∷ b ∷ c ∷ d ∷ e ∷ more) r (bar_of xs)) same
      (record {
        ts = ground (arith, h);
        price = ground (arith, h);
        bid_qty = ground (arith, h);
        ask_qty = ground (arith, h);
        trades = ground (arith, h);
        open_price = o;
        close_price = cl;
        high_price = hi;
        low_price = lo;
      })

read_row-none : (vs : List Value) → read_row vs ≡ none → (r : Row) (bar : Bar) → ¬ Reads vs r bar
unfolding read_row
read_row-none [] h r bar = λ k. absurd (ground (arith, k.trades))
read_row-none (_ ∷ []) h r bar = λ k. absurd (ground (arith, k.trades))
read_row-none (_ ∷ _ ∷ []) h r bar = λ k. absurd (ground (arith, k.trades))
read_row-none (_ ∷ _ ∷ _ ∷ []) h r bar = λ k. absurd (ground (arith, k.trades))
read_row-none (_ ∷ _ ∷ _ ∷ _ ∷ []) h r bar = λ k. absurd (ground (arith, k.trades))
read_row-none (a ∷ b ∷ c ∷ d ∷ e ∷ more) h r bar =
    λ k. absurd (ground (arith, h, k.ts, k.price, k.bid_qty, k.ask_qty, k.trades))

Told-rows_of_lines :
    (parse_line : Text → Option (List Value)) (lines : List Text)
    → Told parse_line lines (rows_of_lines parse_line lines)
unfolding row_of_line
Told-rows_of_lines parse_line [] = none_left
Told-rows_of_lines parse_line ([] ∷ lines) = empty_line (Told-rows_of_lines parse_line lines)
Told-rows_of_lines parse_line ((c ∷ line) ∷ lines) =
    let more = Told-rows_of_lines parse_line lines in
    elim (Option-cases (parse_line (c ∷ line))) [
      | inl failed ↦ rw (failed, rows_of_lines) (no_array failed more)
      | inr (vs, parsed) ↦ elim (Option-cases (read_row vs)) [
        | inl none_read ↦
            rw (parsed, rows_of_lines, none_read) (no_row parsed (read_row-none vs none_read) more)
        | inr ((r, rest), is) ↦
            rw (parsed, rows_of_lines, is) (one_row parsed (read_row-Reads vs r rest is) more)
      ]
    ]

parse_rows-Appended :
    (parse_line : Text → Option (List Value)) (lines : List Text) (last : Option ℤ) (out : Columns)
    (k : ℕ)
    → out.n + suc k ≡ max_bars
    → Appended out
        (parse_rows parse_line lines last out)
        last
        (take (suc k) (rows_of_lines parse_line lines))
unfolding parse_rows
parse_rows-Appended parse_line [] last out k h = Appended-none out last
parse_rows-Appended parse_line (line ∷ lines) last out k h =
    elim (Option-cases (row_of_line parse_line line)) [
      | inl skipped ↦
          rw (skipped, parse_rows, rows_of_lines)
            (parse_rows-Appended parse_line lines last out k h)
      | inr ((r, rest), e) ↦
          rw (e, parse_rows, rows_of_lines, take)
            (kept_step parse_line lines last out k r rest h λ j hj.
              parse_rows-Appended parse_line lines (some r.ts) (keep_row out last r rest) j hj)
    ]

-- The loop over the lines of an answer: the columns hold the rows of the lines that parse, in order,
-- up to 500,000 of them. The time, the price, the bid quantity, the ask quantity and the number of
-- trades are the values at positions 0 to 4 of a line. There is one bar for each run of rows with the
-- same time, as many as `windows_n` says: the open, close, high and low prices at positions 7 to 10 of
-- the run's first line, or zeros where it has none.
pub parse_rows-Columns :
    (parse_line : Text → Option (List Value)) (lines : List Text)
    → (rows : List (Row × Bar)) × Told parse_line lines rows
      × Appended no_columns (parse_rows parse_line lines none no_columns) none (take max_bars rows)
parse_rows-Columns parse_line lines = (
  rows_of_lines parse_line lines,
  Told-rows_of_lines parse_line lines,
  parse_rows-Appended parse_line lines none no_columns 499_999 refl,
)
