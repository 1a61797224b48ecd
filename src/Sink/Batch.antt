-- ===== src/Sink/Batch.antt =====
-- The writer of crates/clickhouse-sink/src/lib.rs neither loses track of a row nor reorders them.
use mathlib.Core.Path.{subst, subst₂}
use trading_terminal_cluster.Common.{
  ℕ, ◌+◌, ◌-◌, ◌^◌, ◌≤◌, ◌<◌, List, [], ◌∷◌, ◌++◌, ◌≡◌, refl, sym, ap, ◌∙◌, arith, Bool, true,
  false, Option, inl, inr,
}
use trading_terminal_cluster.Common.Lists.{
  length, take, drop, length-append, length-drop, take-append-drop,
}
use trading_terminal_cluster.Common.Tests.{if◌then◌else◌, ltb, Bool-cases}
use trading_terminal_cluster.Common.Machine.{add_u64, add_u64_small}
use trading_terminal_cluster.Common.Sub.{
  Sub, done, Sub-refl, Sub-trans, Sub-append, Sub-drop, append_assoc, append_nil,
}
use trading_terminal_cluster.Sink.{
  ClusterRow, ChWriterConfig, Writer, Env, Event, row, pulse, start, try_flush, cap, on_row,
  on_tick, on_close, turn, turns, run,
}

-- The rows that came in.
abbrev pub received : List Event → List ClusterRow
received [] = []
received (row r env ∷ es) = r ∷ received es
received (pulse env ∷ es) = received es

-- The writer's books: `came` are the rows so far, `taken` those of the inserts that succeeded.
pub record Ledger (w : Writer) (taken came : List ClusterRow) : Type 0 where
  pub in_order : Sub (taken ++ w.batch) came
  pub freshest : (older : List ClusterRow) × (came ≡ older ++ w.batch)
  pub taken_count : w.stats.rows_ok ≡ length taken
  pub balance : length taken + w.stats.rows_dropped + length w.batch ≡ length came

push-Ledger :
    (r : ClusterRow) (w : Writer) (taken came : List ClusterRow)
    → Ledger w taken came
    → Ledger (record w { batch = w.batch ++ (r ∷ []) }) taken (came ++ (r ∷ []))
push-Ledger r w taken came l = record {
  in_order =
      subst (λ xs. Sub xs (came ++ (r ∷ []))) (append_assoc taken w.batch (r ∷ []))
        (Sub-append l.in_order (Sub-refl (r ∷ [])));
  freshest = (
    l.freshest.0,
    ap (λ xs. xs ++ (r ∷ [])) l.freshest.1 ∙ append_assoc l.freshest.0 w.batch (r ∷ []),
  );
  taken_count = l.taken_count;
  balance = omega (arith, l.balance, length-append w.batch (r ∷ []), length-append came (r ∷ []));
}

drop-Ledger :
    (n : ℕ) (warned : Option ℕ) (w : Writer) (taken came : List ClusterRow)
    → n ≤ length w.batch
    → length came < 2 ^ 64
    → Ledger w taken came
    → Ledger
        (record w {
          batch = drop n w.batch;
          stats = record w.stats { rows_dropped = add_u64 w.stats.rows_dropped n };
          last_drop_warn = warned;
        })
        taken
        came
drop-Ledger n warned w taken came few small l = record {
  in_order = Sub-trans l.in_order (Sub-append (Sub-refl taken) (Sub-drop n w.batch));
  freshest = (
    l.freshest.0 ++ take n w.batch,
    l.freshest.1
        ∙ ap (λ xs. l.freshest.0 ++ xs) (sym (take-append-drop n w.batch))
        ∙ sym (append_assoc l.freshest.0 (take n w.batch) (drop n w.batch)),
  );
  taken_count = l.taken_count;
  balance = omega (
    arith,
    l.balance,
    length-drop n w.batch,
    add_u64_small w.stats.rows_dropped n (omega (arith, l.balance)),
  );
}

cap-Ledger :
    (cfg : ChWriterConfig) (env : Env) (w : Writer) (taken came : List ClusterRow)
    → length came < 2 ^ 64
    → Ledger w taken came
    → Ledger (cap cfg env w) taken came
unfolding cap
cap-Ledger cfg env w taken came small l =
    elim (Bool-cases (ltb cfg.max_buffer_rows (length w.batch))) [
      | inl over ↦
          rw over (
            drop-Ledger (length w.batch - cfg.max_buffer_rows) _ w taken came (omega arith) small l)
      | inr fits ↦ rw fits l
    ]

-- No further insert succeeded.
nothing_taken :
    {w : Writer} (taken came : List ClusterRow) → Ledger w taken came → Ledger w (taken ++ []) came
nothing_taken {w} taken came l = subst (λ xs. Ledger w xs came) (sym (append_nil taken)) l

refused-Ledger :
    (errors backoff next : ℕ) (w : Writer) (taken came : List ClusterRow)
    → Ledger w taken came
    → Ledger
        (record w {
          stats = record w.stats { batches_err = errors };
          backoff = backoff;
          next_attempt = next;
        })
        taken
        came
refused-Ledger errors backoff next w taken came l = record {
  in_order = l.in_order;
  freshest = l.freshest;
  taken_count = l.taken_count;
  balance = l.balance;
}

try_flush-Ledger :
    (cfg : ChWriterConfig) (env : Env) (w : Writer) (taken came : List ClusterRow)
    → length came < 2 ^ 64
    → Ledger w taken came
    → Ledger (try_flush cfg env w).0 (taken ++ (try_flush cfg env w).1) came
unfolding try_flush
try_flush-Ledger cfg env w taken came small l = elim (Bool-cases (env.accepts w.batch)) [
  | inl accepted ↦ rw accepted (record {
    in_order = subst (λ xs. Sub xs came) (sym (append_nil (taken ++ w.batch))) l.in_order;
    freshest = (came, sym (append_nil came));
    taken_count =
        add_u64_small w.stats.rows_ok (length w.batch) (omega (arith, l.balance, l.taken_count))
        ∙ omega (arith, l.taken_count, length-append taken w.batch);
    balance = omega (arith, l.balance, length-append taken w.batch);
  })
  | inr refused ↦ rw refused (nothing_taken taken came (refused-Ledger _ _ _ w taken came l))
]

-- `try_flush` under a test.
gated-Ledger :
    (b : Bool) (cfg : ChWriterConfig) (env : Env) (w : Writer) (taken came : List ClusterRow)
    → length came < 2 ^ 64
    → Ledger w taken came
    → Ledger
        (if b then try_flush cfg env w else (w, [])).0
        (taken ++ (if b then try_flush cfg env w else (w, [])).1)
        came
gated-Ledger true cfg env w taken came small l = try_flush-Ledger cfg env w taken came small l
gated-Ledger false cfg env w taken came small l = nothing_taken taken came l

abbrev came_after : Event → List ClusterRow → List ClusterRow
came_after (row r env) came = came ++ (r ∷ [])
came_after (pulse env) came = came

turn-Ledger :
    (cfg : ChWriterConfig) (e : Event) (w : Writer) (taken came : List ClusterRow)
    → length (came_after e came) < 2 ^ 64
    → Ledger w taken came
    → Ledger (turn cfg e w).0 (taken ++ (turn cfg e w).1) (came_after e came)
unfolding turn on_row on_tick
turn-Ledger cfg (row r env) w taken came small l =
    gated-Ledger _ cfg env _ taken _ small
      (cap-Ledger cfg env _ taken _ small (push-Ledger r w taken came l))
turn-Ledger cfg (pulse env) w taken came small l = gated-Ledger _ cfg env w taken came small l

came_split :
    (e : Event) (es : List Event) (came : List ClusterRow)
    → came ++ received (e ∷ es) ≡ came_after e came ++ received es
came_split (row r env) es came = sym (append_assoc came (r ∷ []) (received es))
came_split (pulse env) es came = refl

turns-Ledger :
    (cfg : ChWriterConfig) (es : List Event) (w : Writer) (taken came : List ClusterRow)
    → length (came ++ received es) < 2 ^ 64
    → Ledger w taken came
    → Ledger (turns cfg es w).0 (taken ++ (turns cfg es w).1) (came ++ received es)
unfolding turns
turns-Ledger cfg [] w taken came small l =
    nothing_taken taken _ (subst (Ledger w taken) (sym (append_nil came)) l)
turns-Ledger cfg (e ∷ es) w taken came small l =
    let whole = came_split e es came in
    let all_small : length (came_after e came ++ received es) < 2 ^ 64 =
      subst (λ xs. length xs < 2 ^ 64) whole small in
    let first =
      turn-Ledger cfg e w taken came
        (omega (arith, all_small, length-append (came_after e came) (received es))) l in
    subst₂ (Ledger (turns cfg es (turn cfg e w).0).0)
      (append_assoc taken (turn cfg e w).1 (turns cfg es (turn cfg e w).0).1) (sym whole)
      (turns-Ledger cfg es (turn cfg e w).0 (taken ++ (turn cfg e w).1) (came_after e came)
        all_small first)

start-Ledger : (cfg : ChWriterConfig) (now : ℕ) → Ledger (start cfg now) [] []
unfolding start
start-Ledger cfg now = record {
  in_order = done;
  freshest = ([], refl);
  taken_count = refl;
  balance = refl;
}

-- Below 2 ^ 64 rows, whatever ClickHouse answers: when the channel is closed, the rows that came in
-- number as many as those of the inserts that succeeded, plus `rows_dropped`, plus those of the last
-- batch; `rows_ok` counts the rows of these inserts; they and then the last batch keep the order in
-- which they came; and the last batch is the newest rows. Rows of an insert that failed may stand in
-- ClickHouse nevertheless: nothing is stated of them.
pub run-Ledger :
    (cfg : ChWriterConfig) (now : ℕ) (es : List Event) (last : Env)
    → length (received es) < 2 ^ 64
    → Ledger (run cfg now es last).0 (run cfg now es last).1 (received es)
unfolding run on_close
run-Ledger cfg now es last small =
    gated-Ledger _ cfg last _ _ (received es) small
      (turns-Ledger cfg es (start cfg now) [] [] small (start-Ledger cfg now))
