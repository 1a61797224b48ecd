-- ===== src/Engine/Aggregator/Steps.antt =====
-- The steps of crates/cluster-engine/src/aggregator.rs as a relation: each call makes one of them.
use trading_terminal_cluster.Common.{
  List, [], Option, none, some, true, false, ◌≡◌, refl, ap, ◌∙◌, inl, inr, arith,
}
use trading_terminal_cluster.Common.Tests.{if◌then◌else◌, Bool-cases, Option-cases, nat_beq}
use trading_terminal_cluster.Common.Int.{ℤ, ◌<ℤ◌, ltb_ℤ}
use trading_terminal_cluster.Common.Machine.{round_to, add_u64, increment, saturating_sub}
use trading_terminal_cluster.Common.Map.{member}
use trading_terminal_cluster.Core.{TradePrint, ClusterBucket, ClusterFrame, snapshot, diff}
use trading_terminal_cluster.Engine.Aggregator.{
  Aggregator, record_trade, ingest, tick, current_window_delta, step, Call, trade, pulse, delta,
  build_closing_snapshot, buckets_for, cleared, is_empty,
}
use trading_terminal_cluster.Engine.Aggregator.Buckets.{buckets_for-total}
use trading_terminal_cluster.Engine.Aggregator.Invariant.{
  WellFormed, cleared-WellFormed, with_sequence-WellFormed, opened-WellFormed,
  record_trade-WellFormed,
}

-- What `ingest` can do: open a window, add to it, drop a late trade, or roll.
pub data Ingested (a : Aggregator) (t : TradePrint)
    : Aggregator → Option ClusterFrame → Type 0 where
  opens :
      a.current_window_start_ns ≡ none
      → Ingested a t
          (record_trade
            (record a { current_window_start_ns = some (round_to t.exchange_ts_ns a.window_ns) })
            t)
          none
  stays :
      a.current_window_start_ns ≡ some (round_to t.exchange_ts_ns a.window_ns)
      → Ingested a t (record_trade a t) none
  late :
      (w : ℤ)
      → a.current_window_start_ns ≡ some w
      → round_to t.exchange_ts_ns a.window_ns <ℤ w
      → Ingested a t (record a { dropped_late_trades = add_u64 a.dropped_late_trades 1 }) none
  rolls :
      (w : ℤ)
      → a.current_window_start_ns ≡ some w
      → w <ℤ round_to t.exchange_ts_ns a.window_ns
      → Ingested a t
          (record_trade
            (cleared (some (round_to t.exchange_ts_ns a.window_ns)) (build_closing_snapshot a).0)
            t)
          (some (build_closing_snapshot a).1)

le_antisym_ℤ : (x y : ℤ) → ltb_ℤ x y ≡ false → ltb_ℤ y x ≡ false → x ≡ y
le_antisym_ℤ x y h k = ground arith

ltb_ℤ-lt : (x y : ℤ) → ltb_ℤ x y ≡ true → x <ℤ y
ltb_ℤ-lt x y h = ground arith

module _ (a : Aggregator) (t : TradePrint) where
  now_window : ℤ
  now_window = round_to t.exchange_ts_ns a.window_ns

  ingest_opens :
      a.current_window_start_ns ≡ none
      → ingest a t ≡ (
        record_trade
            (record a { current_window_start_ns = some (round_to t.exchange_ts_ns a.window_ns) })
            t,
        none,
      )
  unfolding ingest
  ingest_opens e = ground arith

  ingest_known :
      (w : ℤ)
      → a.current_window_start_ns ≡ some w
      → ingest a t ≡ (
          if ltb_ℤ w (round_to t.exchange_ts_ns a.window_ns)
          then (
            record_trade
                (cleared
                  (some (round_to t.exchange_ts_ns a.window_ns))
                  (build_closing_snapshot a).0)
                t,
            some (build_closing_snapshot a).1,
          )
          else if ltb_ℤ (round_to t.exchange_ts_ns a.window_ns) w
          then (record a { dropped_late_trades = add_u64 a.dropped_late_trades 1 }, none)
          else (record_trade a t, none))
  unfolding ingest
  ingest_known w e = ground arith

  pub ingest-Ingested : Ingested a t (ingest a t).0 (ingest a t).1
  unfolding now_window
  ingest-Ingested = elim (Option-cases a.current_window_start_ns) [
    | inl e ↦ rw (ingest_opens e) (opens e)
    | inr (w, e) ↦ elim (Bool-cases (ltb_ℤ w now_window)) [
      | inl later ↦ rw (ingest_known w e, later) (rolls w e (ltb_ℤ-lt w now_window later))
      | inr not_later ↦ elim (Bool-cases (ltb_ℤ now_window w)) [
        | inl earlier ↦
            rw (ingest_known w e, not_later, earlier) (late w e (ltb_ℤ-lt now_window w earlier))
        | inr same ↦
            rw (ingest_known w e, not_later, same)
              (stays (e ∙ ap some (le_antisym_ℤ w now_window not_later same)))
      ]
    ]
  ]

abbrev pub pulsed_state : Aggregator → ℤ → Aggregator
pulsed_state a now = record a {
  sequence = increment a.sequence;
  dirty = [];
  last_diff_emit_ns = now;
}

abbrev pub pulsed_frame : Aggregator → ℤ → List ClusterBucket → ClusterFrame
pulsed_frame a w bs =
    diff
      (record { window_start_ns = w; sequence = increment a.sequence; upserts = bs; removes = [] })

abbrev pub delta_state : Aggregator → Aggregator
delta_state a = record a { sequence = increment a.sequence; partial_dirty = [] }

abbrev pub delta_frame : Aggregator → ℤ → List ClusterBucket → ClusterFrame
delta_frame a w bs = snapshot (record {
  window_start_ns = w;
  sequence = increment a.sequence;
  clusters = bs;
  open_price = a.open_price;
  close_price = a.close_price;
  high_price = a.high_price;
  low_price = a.low_price;
})

pub data Stepped (a : Aggregator) : Call → Aggregator → Option ClusterFrame → Type 0 where
  ingested :
      {t : TradePrint} {b : Aggregator} {f : Option ClusterFrame}
      → Ingested a t b f
      → Stepped a (trade t) b f
  idle_pulse : (now : ℤ) → Stepped a (pulse now) a none
  idle_delta : Stepped a delta a none
  pulsed :
      (now w : ℤ) (bs : List ClusterBucket)
      → a.current_window_start_ns ≡ some w
      → buckets_for a.accum a.dirty ≡ some bs
      → Stepped a (pulse now) (pulsed_state a now) (some (pulsed_frame a w bs))
  emitted :
      (w : ℤ) (bs : List ClusterBucket)
      → a.current_window_start_ns ≡ some w
      → buckets_for a.accum a.partial_dirty ≡ some bs
      → Stepped a delta (delta_state a) (some (delta_frame a w bs))

abbrev pub Steps : Aggregator → Call → Type 0
Steps a c =
    (b : Aggregator) × (f : Option ClusterFrame) × (step a c ≡ some (b, f)) × Stepped a c b f

tick-Steps : (a : Aggregator) (now : ℤ) → WellFormed a → Steps a (pulse now)
unfolding step tick
tick-Steps a now v = elim (Bool-cases (is_empty a.dirty)) [
  | inl idle ↦ (a, none, rw idle, idle_pulse now)
  | inr busy ↦
      elim (Bool-cases (ltb_ℤ (saturating_sub now a.last_diff_emit_ns) a.diff_interval_ns)) [
        | inl early ↦ (a, none, rw (busy, early), idle_pulse now)
        | inr due ↦ elim (Option-cases a.current_window_start_ns) [
          | inl closed ↦ (a, none, ground (arith, busy, due, closed), idle_pulse now)
          | inr (w, e) ↦
              let (bs, found) = buckets_for-total a.accum a.dirty v.dirty_known in
              (
                pulsed_state a now,
                some (pulsed_frame a w bs),
                ground (arith, busy, due, e, found),
                pulsed now w bs e found,
              )
        ]
      ]
]

delta-Steps : (a : Aggregator) → WellFormed a → Steps a delta
unfolding step current_window_delta
delta-Steps a v = elim (Bool-cases (is_empty a.partial_dirty)) [
  | inl idle ↦ (a, none, rw idle, idle_delta)
  | inr busy ↦ elim (Option-cases a.current_window_start_ns) [
    | inl closed ↦ (a, none, ground (arith, busy, closed), idle_delta)
    | inr (w, e) ↦
        let (bs, found) = buckets_for-total a.accum a.partial_dirty v.partial_known in
        (
          delta_state a,
          some (delta_frame a w bs),
          ground (arith, busy, e, found),
          emitted w bs e found,
        )
  ]
]

-- In a well-formed state every call returns, and makes one of the steps.
pub step-Steps : (a : Aggregator) (c : Call) → WellFormed a → Steps a c
step-Steps a (trade t) v =
    let divides : nat_beq a.window_ns 0 ≡ false = ground (arith, v.window_pos) in
    ((ingest a t).0, (ingest a t).1, unfold step in rw divides refl, ingested (ingest-Ingested a t))
step-Steps a (pulse now) v = tick-Steps a now v
step-Steps a delta v = delta-Steps a v

closing-WellFormed : (a : Aggregator) → WellFormed a → WellFormed (build_closing_snapshot a).0
unfolding build_closing_snapshot
closing-WellFormed a v = with_sequence-WellFormed (increment a.sequence) a v

Ingested-WellFormed :
    (a : Aggregator) (t : TradePrint) (b : Aggregator) (f : Option ClusterFrame)
    → Ingested a t b f
    → WellFormed a
    → WellFormed b
Ingested-WellFormed a t b f (opens e) v =
    record_trade-WellFormed _ t (opened-WellFormed _ a v) (λ h. cc)
Ingested-WellFormed a t b f (stays e) v = record_trade-WellFormed a t v (λ h. cc)
Ingested-WellFormed a t b f (late w e lt) v = record {
  step_pos = v.step_pos;
  window_pos = v.window_pos;
  dirty_known = v.dirty_known;
  partial_known = v.partial_known;
  idle = v.idle;
}
Ingested-WellFormed a t b f (rolls w e lt) v =
    record_trade-WellFormed _ t (cleared-WellFormed _ _ (closing-WellFormed a v)) (λ h. cc)

pub Stepped-WellFormed :
    (a : Aggregator) (c : Call) (b : Aggregator) (f : Option ClusterFrame)
    → Stepped a c b f
    → WellFormed a
    → WellFormed b
Stepped-WellFormed a c b f (ingested {t} i) v = Ingested-WellFormed a t b f i v
Stepped-WellFormed a c b f (idle_pulse now) v = v
Stepped-WellFormed a c b f idle_delta v = v
Stepped-WellFormed a c b f (pulsed now w bs e found) v = record {
  step_pos = v.step_pos;
  window_pos = v.window_pos;
  dirty_known = λ p k. absurd (unfold member in ground arith);
  partial_known = v.partial_known;
  idle = v.idle;
}
Stepped-WellFormed a c b f (emitted w bs e found) v = record {
  step_pos = v.step_pos;
  window_pos = v.window_pos;
  dirty_known = v.dirty_known;
  partial_known = λ p k. absurd (unfold member in ground arith);
  idle = v.idle;
}
