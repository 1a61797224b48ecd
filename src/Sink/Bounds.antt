-- ===== src/Sink/Bounds.antt =====
-- Limits that the writer of crates/clickhouse-sink/src/lib.rs keeps: its memory and its retries.
use Prim.Native.Nat.{min, max}
use native.Mathlib.Nat.{pow-suc}
use trading_terminal_cluster.Common.{
  ℕ, suc, ◌+◌, ◌-◌, ◌*◌, ◌^◌, ◌≤◌, ◌<◌, List, [], ◌∷◌, ◌++◌, ◌≡◌, ap, ◌∙◌, arith, Bool, true, false,
  inl, inr,
}
use trading_terminal_cluster.Common.Lists.{length, length-drop}
use trading_terminal_cluster.Common.Tests.{if◌then◌else◌, ltb, Bool-cases}
use trading_terminal_cluster.Sink.{
  ClusterRow, ChWriterConfig, Writer, Env, Event, row, pulse, start, try_flush, cap, on_row,
  on_tick, turn, turns, backoff_max,
}

pub record Bounded (cfg : ChWriterConfig) (w : Writer) : Type 0 where
  pub buffered : length w.batch ≤ cfg.max_buffer_rows
  pub backs_off : w.backoff ≤ max cfg.flush_interval backoff_max

gated-Bounded :
    (b : Bool) (cfg : ChWriterConfig) (env : Env) (w : Writer)
    → Bounded cfg w
    → Bounded cfg (if b then try_flush cfg env w else (w, [])).0
unfolding try_flush
gated-Bounded false cfg env w h = h
gated-Bounded true cfg env w h = elim (Bool-cases (env.accepts w.batch)) [
  | inl accepted ↦ rw accepted (record { buffered = omega arith; backs_off = omega arith })
  | inr refused ↦ rw refused (record { buffered = h.buffered; backs_off = omega arith })
]

cap-Bounded :
    (cfg : ChWriterConfig) (env : Env) (w : Writer)
    → w.backoff ≤ max cfg.flush_interval backoff_max
    → Bounded cfg (cap cfg env w)
unfolding cap
cap-Bounded cfg env w h = elim (Bool-cases (ltb cfg.max_buffer_rows (length w.batch))) [
  | inl over ↦ rw over (record {
    buffered = omega (arith, length-drop (length w.batch - cfg.max_buffer_rows) w.batch);
    backs_off = h;
  })
  | inr fits ↦ rw fits (record { buffered = ground (arith, fits); backs_off = h })
]

turns-Bounded :
    (cfg : ChWriterConfig) (es : List Event) (w : Writer)
    → Bounded cfg w
    → Bounded cfg (turns cfg es w).0
unfolding turns turn on_row on_tick
turns-Bounded cfg [] w h = h
turns-Bounded cfg (row r env ∷ es) w h =
    turns-Bounded cfg es _ (gated-Bounded _ cfg env _ (cap-Bounded cfg env _ h.backs_off))
turns-Bounded cfg (pulse env ∷ es) w h = turns-Bounded cfg es _ (gated-Bounded _ cfg env w h)

-- After any turns, the batch holds at most max_buffer_rows rows, and the backoff is at most the
-- larger of flush_interval and 30 seconds.
pub start-turns-Bounded :
    (cfg : ChWriterConfig) (now : ℕ) (es : List Event)
    → Bounded cfg (turns cfg es (start cfg now)).0
unfolding start
start-turns-Bounded cfg now es =
    turns-Bounded cfg es _ (record { buffered = omega arith; backs_off = omega arith })

-- A turn before `next_attempt` sends nothing and counts no batch; the gate stays where it is.
turn_gated :
    (cfg : ChWriterConfig) (w : Writer) (r : ClusterRow) (env : Env)
    → env.gate_time < w.next_attempt
    → (on_row cfg env r w ≡ (cap cfg env (record w { batch = w.batch ++ (r ∷ []) }), []))
      × (on_tick cfg env w ≡ (w, []))
      × ((cap cfg env w).next_attempt ≡ w.next_attempt)
unfolding on_row on_tick cap
turn_gated cfg w r env h = ground arith

-- `n` attempts that fail.
unfoldable pub failures : ChWriterConfig → List Env → Writer → Writer
unfolding try_flush
failures cfg [] w = w
failures cfg (env ∷ envs) w =
    failures cfg envs (try_flush cfg (record env { accepts = λ _. false }) w).0

failures_step :
    (cfg : ChWriterConfig) (envs : List Env) (w : Writer) (k b : ℕ)
    → w.backoff ≡ min (b * 2 ^ k) backoff_max
    → (failures cfg envs w).backoff ≡ min (b * 2 ^ (k + length envs)) backoff_max
unfolding failures
failures_step cfg [] w k b h = h ∙ ap (λ n. min (b * 2 ^ n) backoff_max) (omega arith)
failures_step cfg (env ∷ envs) w k b h =
    failures_step cfg envs _ (suc k) b (rw (pow-suc 2 k) (omega (arith, h)))
    ∙ ap (λ n. min (b * 2 ^ n) backoff_max) (omega arith)

-- Failures in a row, at least one, double the backoff each time, up to 30 seconds.
failures-backoff :
    (cfg : ChWriterConfig) (env : Env) (envs : List Env) (w : Writer)
    → (failures cfg (env ∷ envs) w).backoff ≡ min (w.backoff * 2 ^ suc (length envs)) backoff_max
unfolding failures
failures-backoff cfg env envs w =
    failures_step cfg envs _ 1 w.backoff (omega arith)
    ∙ ap (λ n. min (w.backoff * 2 ^ n) backoff_max) (omega arith)
