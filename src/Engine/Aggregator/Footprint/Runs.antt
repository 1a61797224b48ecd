-- ===== src/Engine/Aggregator/Footprint/Runs.antt =====
-- After any calls the aggregator stands for the trades of its open window.
use trading_terminal_cluster.Common.{
  ℕ, List, [], ◌∷◌, Option, none, some, ◌≡◌, refl, sym, ap, ◌∙◌, arith,
}
use mathlib.Core.Path.{subst, subst₂}
use trading_terminal_cluster.Common.Lists.{All}
use trading_terminal_cluster.Common.Int.{ℤ, pos, ◌<ℤ◌}
use trading_terminal_cluster.Common.Eq.{int_eq}
use trading_terminal_cluster.Common.Machine.{increment}
use trading_terminal_cluster.Common.Map.{lookup}
use trading_terminal_cluster.Core.{
  TradePrint, SymbolKey, ClusterBucket, ClusterFrame, snapshot, AnalyticsSnapshot,
}
use trading_terminal_cluster.Engine.Aggregator.{
  Aggregator, new, record_trade, update_ohlc, run, Call, trade, pulse, delta,
  build_closing_snapshot, bucket_of, cleared, cons_frame, ClusterAccum, all_buckets, window_or_zero,
}
use trading_terminal_cluster.Engine.Aggregator.Buckets.{find_bucket, find-all_buckets, bucket_in}
use trading_terminal_cluster.Engine.Aggregator.Invariant.{WellFormed}
use trading_terminal_cluster.Engine.Aggregator.Steps.{
  Ingested, opens, stays, late, rolls, Stepped, ingested, idle_pulse, idle_delta, pulsed, emitted,
  step-Steps, Stepped-WellFormed, pulsed_state, delta_state,
}
use trading_terminal_cluster.Engine.Aggregator.Footprint.{
  window_of, admit, open_window, count, footprint, IsRegular, IsBar,
}
use trading_terminal_cluster.Engine.Aggregator.Footprint.Volume.{lookup-record_trade}
use trading_terminal_cluster.Engine.Aggregator.Footprint.Prices.{BarOf, record_trade-BarOf}

-- The trades of the open window after a call.
abbrev pub observe : ℕ → List TradePrint → Call → List TradePrint
observe ns ts (trade t) = admit ns ts t
observe ns ts (pulse now) = ts
observe ns ts delta = ts

abbrev pub observe_all : ℕ → List TradePrint → List Call → List TradePrint
observe_all ns ts [] = ts
observe_all ns ts (c ∷ cs) = observe_all ns (observe ns ts c) cs

abbrev pub RegularCall : Call → Type 0
RegularCall (trade t) = IsRegular t
RegularCall (pulse now) = Unit {0}
RegularCall delta = Unit {0}

-- The accumulator of a price as the frames show it.
abbrev pub reported : ℤ → Option ClusterAccum → Option ClusterBucket
reported p none = none
reported p (some acc) = some (bucket_of p acc)

-- The state `a`, of an aggregator made with these steps, stands for the trades `ts`.
pub record Represents (step ns : ℕ) (a : Aggregator) (ts : List TradePrint) : Type 0 where
  pub step_is : a.bucket_step ≡ step
  pub ns_is : a.window_ns ≡ ns
  pub window : a.current_window_start_ns ≡ open_window ns ts
  pub volumes : (p : ℤ) → lookup p a.accum ≡ footprint step p ts
  pub bar : BarOf a ts
  pub regular : All IsRegular ts

record_trade_fields :
    (a : Aggregator) (t : TradePrint)
    → ((record_trade a t).bucket_step ≡ a.bucket_step)
      × ((record_trade a t).window_ns ≡ a.window_ns)
      × ((record_trade a t).current_window_start_ns ≡ a.current_window_start_ns)
unfolding record_trade update_ohlc
record_trade_fields a t = ground arith

pulsed-BarOf :
    (a : Aggregator) (now : ℤ) (ts : List TradePrint) → BarOf a ts → BarOf (pulsed_state a now) ts
pulsed-BarOf a now [] h = h
pulsed-BarOf a now (t ∷ ts) h = h

delta-BarOf : (a : Aggregator) (ts : List TradePrint) → BarOf a ts → BarOf (delta_state a) ts
delta-BarOf a [] h = h
delta-BarOf a (t ∷ ts) h = h

closing_step : (a : Aggregator) → (build_closing_snapshot a).0.bucket_step ≡ a.bucket_step
unfolding build_closing_snapshot
closing_step a = refl

closing_ns : (a : Aggregator) → (build_closing_snapshot a).0.window_ns ≡ a.window_ns
unfolding build_closing_snapshot
closing_ns a = refl

module _ {ns : ℕ} (a : Aggregator) (t s : TradePrint) (k : a.window_ns ≡ ns) (w : ℤ) where
  earlier_than :
      a.current_window_start_ns ≡ some (window_of ns s)
      → a.current_window_start_ns ≡ some w
      → window_of a.window_ns t <ℤ w
      → window_of ns t <ℤ window_of ns s
  earlier_than at_s at_w lt =
      let e : w ≡ window_of ns s = cc in subst₂ (λ x y. window_of x t <ℤ y) k e lt

  later_than :
      a.current_window_start_ns ≡ some (window_of ns s)
      → a.current_window_start_ns ≡ some w
      → w <ℤ window_of a.window_ns t
      → window_of ns s <ℤ window_of ns t
  later_than at_s at_w lt =
      let e : w ≡ window_of ns s = cc in subst₂ (λ x y. y <ℤ window_of x t) k e lt

module _ (step ns : ℕ) where
  -- A state on the window of `t` takes `t`.
  record_trade-Represents :
      (a : Aggregator) (t : TradePrint) (ts : List TradePrint)
      → a.bucket_step ≡ step
      → a.window_ns ≡ ns
      → a.current_window_start_ns ≡ some (window_of ns t)
      → ((p : ℤ) → lookup p a.accum ≡ footprint step p ts)
      → BarOf a ts
      → All IsRegular ts
      → IsRegular t
      → Represents step ns (record_trade a t) (t ∷ ts)
  record_trade-Represents a t ts e k w v b r h =
      let (same_step, same_ns, same_window) = record_trade_fields a t in
      record {
        step_is = same_step ∙ e;
        ns_is = same_ns ∙ k;
        window = same_window ∙ w;
        volumes = λ p.
            subst (λ s. lookup p (record_trade a t).accum ≡ footprint s p (t ∷ ts)) e
              (lookup-record_trade a t ts h.0
                (λ q. subst (λ s. lookup q a.accum ≡ footprint s q ts) (sym e) (v q)) p);
        bar = record_trade-BarOf a t ts r b;
        regular = (h, r);
      }

  cleared-volumes :
      (w : Option ℤ) (a : Aggregator) (p : ℤ) → lookup p (cleared w a).accum ≡ footprint step p []
  unfolding lookup count
  cleared-volumes w a p = refl

  module _ (s t : TradePrint) (ts : List TradePrint) where
    admit_same : window_of ns s ≡ window_of ns t → admit ns (s ∷ ts) t ≡ t ∷ s ∷ ts
    unfolding admit
    admit_same e = ground arith

    admit_late : window_of ns t <ℤ window_of ns s → admit ns (s ∷ ts) t ≡ s ∷ ts
    unfolding admit
    admit_late h = ground arith

    admit_later : window_of ns s <ℤ window_of ns t → admit ns (s ∷ ts) t ≡ t ∷ []
    unfolding admit
    admit_later h = ground arith

  -- The four things that `ingest` can do are what `admit` says.
  Ingested-Represents :
      (a : Aggregator) (t : TradePrint) (ts : List TradePrint) (b : Aggregator)
      (f : Option ClusterFrame)
      → Ingested a t b f
      → IsRegular t
      → Represents step ns a ts
      → Represents step ns b (admit ns ts t)
  Ingested-Represents a t [] b f (opens e) h r =
      unfold admit in
      record_trade-Represents _ t [] r.step_is r.ns_is (ap (λ k. some (window_of k t)) r.ns_is)
        r.volumes r.bar tt h
  Ingested-Represents a t [] b f (stays e) h r = absurd (cc (r.window, e))
  Ingested-Represents a t [] b f (late w e lt) h r = absurd (cc (r.window, e))
  Ingested-Represents a t [] b f (rolls w e lt) h r = absurd (cc (r.window, e))
  Ingested-Represents a t (s ∷ ts) b f (opens e) h r = absurd (cc (r.window, e))
  Ingested-Represents a t (s ∷ ts) b f (stays e) h r =
      let now = e ∙ ap (λ k. some (window_of k t)) r.ns_is in
      rw (admit_same s t ts (ground (arith, r.window, now)))
        (record_trade-Represents a t (s ∷ ts) r.step_is r.ns_is now r.volumes r.bar r.regular h)
  Ingested-Represents a t (s ∷ ts) b f (late w e lt) h r =
      rw (admit_late s t ts (earlier_than a t s r.ns_is w (r.window) e lt)) (record {
        step_is = r.step_is;
        ns_is = r.ns_is;
        window = r.window;
        volumes = r.volumes;
        bar = r.bar;
        regular = r.regular;
      })
  Ingested-Represents a t (s ∷ ts) b f (rolls w e lt) h r =
      rw (admit_later s t ts (later_than a t s r.ns_is w (r.window) e lt)) (
        record_trade-Represents
          (cleared (some (window_of a.window_ns t)) (build_closing_snapshot a).0) t []
          (closing_step a ∙ r.step_is) (closing_ns a ∙ r.ns_is)
          (ap (λ k. some (window_of k t)) r.ns_is)
          (cleared-volumes (some (window_of a.window_ns t)) (build_closing_snapshot a).0) refl tt h)

  Stepped-Represents :
      (a : Aggregator) (c : Call) (ts : List TradePrint) (b : Aggregator) (f : Option ClusterFrame)
      → Stepped a c b f
      → RegularCall c
      → Represents step ns a ts
      → Represents step ns b (observe ns ts c)
  Stepped-Represents a c ts b f (ingested {t} i) h r = Ingested-Represents a t ts b f i h r
  Stepped-Represents a c ts b f (idle_pulse now) h r = r
  Stepped-Represents a c ts b f idle_delta h r = r
  Stepped-Represents a c ts b f (pulsed now w bs e found) h r = record {
    step_is = r.step_is;
    ns_is = r.ns_is;
    window = r.window;
    volumes = r.volumes;
    bar = pulsed-BarOf a now ts r.bar;
    regular = r.regular;
  }
  Stepped-Represents a c ts b f (emitted w bs e found) h r = record {
    step_is = r.step_is;
    ns_is = r.ns_is;
    window = r.window;
    volumes = r.volumes;
    bar = delta-BarOf a ts r.bar;
    regular = r.regular;
  }

  pub run-Represents :
      (a : Aggregator) (cs : List Call) (ts : List TradePrint)
      → WellFormed a
      → Represents step ns a ts
      → All RegularCall cs
      → (z : Aggregator) × (fs : List ClusterFrame) × (run a cs ≡ some (z, fs))
        × Represents step ns z (observe_all ns ts cs)
        × WellFormed z
  unfolding run
  run-Represents a [] ts v r _ = (a, [], refl, r, v)
  run-Represents a (c ∷ cs) ts v r (h, hs) =
      let (b, f, e, s) = step-Steps a c v in
      let (z, fs, rest, rz, vz) =
        run-Represents b cs (observe ns ts c) (Stepped-WellFormed a c b f s v)
          (Stepped-Represents a c ts b f s h r) hs in
      (z, cons_frame f fs, ground (arith, e, rest), rz, vz)

  -- The bucket of a price in the closing snapshot.
  pub closing_snapshot :
      (a : Aggregator) (s : TradePrint) (ts : List TradePrint)
      → Represents step ns a (s ∷ ts)
      → (snap : AnalyticsSnapshot) × ((build_closing_snapshot a).1 ≡ snapshot snap)
        × (snap.window_start_ns ≡ window_of ns s)
        × ((p : ℤ) → find_bucket p snap.clusters ≡ reported p (footprint step p (s ∷ ts)))
        × IsBar snap.open_price snap.close_price snap.high_price snap.low_price (s ∷ ts)
  unfolding build_closing_snapshot bucket_in
  closing_snapshot a s ts r = (
    record {
      window_start_ns = window_or_zero a.current_window_start_ns;
      sequence = increment a.sequence;
      clusters = all_buckets a.accum;
      open_price = a.open_price;
      close_price = a.close_price;
      high_price = a.high_price;
      low_price = a.low_price;
    },
    refl,
    ap window_or_zero r.window,
    λ p. find-all_buckets p a.accum ∙ ap (reported p) (r.volumes p),
    r.bar,
  )

pub new-Represents :
    (key : SymbolKey) (bucket_step window_ms diff_ms : ℤ) {a : Aggregator}
    → new key bucket_step window_ms diff_ms ≡ some a
    → Represents a.bucket_step a.window_ns a []
unfolding new
new-Represents key (pos x) (pos y) (pos z) {a} e = record {
  step_is = refl;
  ns_is = refl;
  window = ground arith;
  volumes = λ p. unfold lookup count in ground arith;
  bar = ground arith;
  regular = tt;
}
new-Represents key _ _ _ e = absurd (ground arith)
