-- ===== src/Engine/Task.antt =====
-- `run_aggregator` of crates/cluster-engine/src/task.rs: the loop between one aggregator and the bus.
use mathlib.Core.Path.{subst}
use trading_terminal_cluster.Common.{
  ℕ, ◌≤◌, ◌+◌, ◌-◌, List, [], ◌∷◌, ◌++◌, ◌≡◌, refl, sym, ap, ◌∙◌, arith, Option, none, some, inl,
  inr,
}
use trading_terminal_cluster.Common.Tests.{if◌then◌else◌, ltb, Bool-cases}
use trading_terminal_cluster.Common.Eq.{◌==◌}
use trading_terminal_cluster.Common.Map.{lookup}
use trading_terminal_cluster.Common.Int.{ℤ}
use trading_terminal_cluster.Core.{StreamKey, SymbolKey, ClusterFrame}
use trading_terminal_cluster.Core.Wire.{stream_key_eq}
use trading_terminal_cluster.Engine.Aggregator.{
  Aggregator, Call, step, run, cons_frame, flush, new, ◌>>=◌,
}
use trading_terminal_cluster.Engine.Aggregator.Reports.{run-total}
use trading_terminal_cluster.Engine.Bus.{
  ClusterBus, publish, channel_at, publish_all, send_all, publish_all-channel_at, publish_all-other,
}

-- What a turn of the loop is woken by, while the trade channel is open.
pub data Event : Type 0 where
  call : Call → Event
  stats : Event

-- The locals of `run_aggregator`, and the `delta` of each warning.
pub record Task (Channel : Type 0) : Type 0 where
  pub agg : Aggregator
  pub bus : ClusterBus Channel
  pub last_late : ℕ
  pub warned : List ℕ

module _ {Channel : Type 0} (channel : ℕ → Channel) (send : ClusterFrame → Channel → Channel)
    (stream_key : StreamKey) where
  unfoldable pub publish_some : Option ClusterFrame → ClusterBus Channel → ClusterBus Channel
  publish_some none bus = bus
  publish_some (some frame) bus = publish channel send stream_key frame bus

  unfoldable pub log_stats : Task Channel → Task Channel
  log_stats t =
      let late = t.agg.dropped_late_trades in
      if ltb t.last_late late
      then record t { last_late = late; warned = (late - t.last_late) ∷ t.warned }
      else t

  -- `none` is a panic of the aggregator.
  unfoldable pub turn : Event → Task Channel → Option (Task Channel)
  unfolding publish_some log_stats
  turn (call c) t = do
    (agg, frame) ← step t.agg c
    some (record t { agg = agg; bus = publish_some frame t.bus })
  turn stats t = some (log_stats t)

  unfoldable pub turns : List Event → Task Channel → Option (Task Channel)
  unfolding turn
  turns [] t = some t
  turns (e ∷ es) t = turn e t >>= turns es

  -- The turn on which the channel is closed.
  unfoldable pub close : Task Channel → Task Channel
  unfolding publish_some
  close t = let (agg, frame) = flush t.agg in record t { agg = agg; bus = publish_some frame t.bus }

  unfoldable pub run_aggregator :
      Aggregator → ClusterBus Channel → List Event → Option (Task Channel)
  unfolding turns close
  run_aggregator agg bus events = do
    t ← turns events (record { agg = agg; bus = bus; last_late = 0; warned = [] })
    some (close t)

  abbrev pub calls : List Event → List Call
  calls [] = []
  calls (call c ∷ es) = c ∷ calls es
  calls (stats ∷ es) = calls es

  abbrev pub sum : List ℕ → ℕ
  sum [] = 0
  sum (n ∷ ns) = n + sum ns

  -- The task follows the run of its aggregator.
  record Follows (t : Task Channel) (bus : ClusterBus Channel) (z : Aggregator)
      (fs : List ClusterFrame) : Type 0 where
    agg : t.agg ≡ z
    bus_is : t.bus ≡ publish_all channel send stream_key fs bus
    warned_all : sum t.warned ≡ t.last_late

  cons-publish :
      (f : Option ClusterFrame) (fs : List ClusterFrame) (bus : ClusterBus Channel)
      → publish_all channel send stream_key (cons_frame f fs) bus
        ≡ publish_all channel send stream_key fs (publish_some f bus)
  unfolding publish_some
  cons-publish none fs bus = refl
  cons-publish (some f) fs bus = refl

  run_cons :
      (a : Aggregator) (c : Call) (cs : List Call) (z : Aggregator) (fs : List ClusterFrame)
      → run a (c ∷ cs) ≡ some (z, fs)
      → (b : Aggregator) × (f : Option ClusterFrame) × (gs : List ClusterFrame) × (step a c
          ≡ some (b, f))
        × (run b cs ≡ some (z, gs))
        × (fs ≡ cons_frame f gs)
  unfolding run
  run_cons a c cs z fs h = first (step a c) refl h
    where
      second :
          (b : Aggregator) (f : Option ClusterFrame) (o : Option (Aggregator × List ClusterFrame))
          → run b cs ≡ o
          → ◌>>=◌ {B = Aggregator × List ClusterFrame} o (λ (x, gs). some (x, cons_frame f gs))
            ≡ some (z, fs)
          → (gs : List ClusterFrame) × (run b cs ≡ some (z, gs)) × (fs ≡ cons_frame f gs)
      second b f none e k = absurd (ground arith)
      second b f (some (x, gs)) e k = (gs, cc, cc)

      first :
          (o : Option (Aggregator × Option ClusterFrame))
          → step a c ≡ o
          → ◌>>=◌ {B = Aggregator × List ClusterFrame} o (λ (b, f).
            ◌>>=◌ {B = Aggregator × List ClusterFrame}
              (run b cs)
              (λ (x, gs). some (x, cons_frame f gs)))
            ≡ some (z, fs)
          → (b : Aggregator) × (f : Option ClusterFrame) × (gs : List ClusterFrame) × (step a c
              ≡ some (b, f))
            × (run b cs ≡ some (z, gs))
            × (fs ≡ cons_frame f gs)
      first none e k = absurd (ground arith)
      first (some (b, f)) e k =
          let (gs, rest, is) = second b f (run b cs) refl k in (b, f, gs, e, rest, is)

  warned_sum :
      (t : Task Channel)
      → sum t.warned ≡ t.last_late
      → sum (log_stats t).warned ≡ (log_stats t).last_late
  unfolding log_stats
  warned_sum t w = ground arith

  log_stats_agg : (t : Task Channel) → (log_stats t).agg ≡ t.agg
  unfolding log_stats
  log_stats_agg t = ground arith

  log_stats_bus : (t : Task Channel) → (log_stats t).bus ≡ t.bus
  unfolding log_stats
  log_stats_bus t = ground arith

  turns-Follows :
      (es : List Event) (t : Task Channel) (z : Aggregator) (fs : List ClusterFrame)
      → sum t.warned ≡ t.last_late
      → run t.agg (calls es) ≡ some (z, fs)
      → (u : Task Channel) × (turns es t ≡ some u) × Follows u t.bus z fs
  unfolding turns turn run log_stats
  turns-Follows [] t z fs w h =
      let none_left : [] ≡ fs = cc in
      (
        t,
        refl,
        record {
          agg = cc;
          bus_is = ap (λ gs. publish_all channel send stream_key gs t.bus) none_left;
          warned_all = w;
        },
      )
  turns-Follows (stats ∷ es) t z fs w h =
      let (u, ran, f) =
        turns-Follows es (log_stats t) z fs (warned_sum t w)
          (subst (λ a. run a (calls es) ≡ some (z, fs)) (sym (log_stats_agg t)) h) in
      (u, ran, subst (λ b. Follows u b z fs) (log_stats_bus t) f)
  turns-Follows (call c ∷ es) t z fs w h =
      let (b, f, gs, stepped, rest, is) = run_cons t.agg c (calls es) z fs h in
      let (u, ran, follows) =
        turns-Follows es (record t { agg = b; bus = publish_some f t.bus }) z gs w rest in
      (
        u,
        rw (stepped, turns, turn) ran,
        record {
          agg = follows.agg;
          bus_is =
              follows.bus_is
              ∙ sym (cons-publish f gs t.bus)
              ∙ ap (λ xs. publish_all channel send stream_key xs t.bus) (sym is);
          warned_all = follows.warned_all;
        },
      )

  -- The frames of a run and of the closing flush, in order.
  abbrev pub all_frames : Aggregator → List ClusterFrame → List ClusterFrame
  all_frames z fs = fs ++ cons_frame (flush z).1 []

  -- What the task has done when its channel is closed.
  pub record Finished (agg : Aggregator) (bus : ClusterBus Channel) (es : List Event) : Type 0 where
    pub final : Task Channel
    pub z : Aggregator
    pub fs : List ClusterFrame
    pub returns : run_aggregator agg bus es ≡ some final
    pub ran : run agg (calls es) ≡ some (z, fs)
    pub flushed : final.agg ≡ (flush z).0
    pub sent :
        channel_at channel send stream_key final.bus
        ≡ send_all channel send (all_frames z fs) (channel_at channel send stream_key bus)
    pub others :
        (k : StreamKey)
        → (if stream_key == k then none else lookup k final.bus.channels)
          ≡ (if stream_key == k then none else lookup k bus.channels)
    pub warned_all : sum final.warned ≡ final.last_late

  publish_last :
      (fs : List ClusterFrame) (f : Option ClusterFrame) (bus : ClusterBus Channel)
      → publish_all channel send stream_key (fs ++ cons_frame f []) bus
        ≡ publish_some f (publish_all channel send stream_key fs bus)
  publish_last [] f bus = cons-publish f [] bus
  publish_last (g ∷ fs) f bus = publish_last fs f (publish channel send stream_key g bus)

  close-Finished :
      (agg : Aggregator) (bus : ClusterBus Channel) (es : List Event) (u : Task Channel)
      (z : Aggregator) (fs : List ClusterFrame)
      → turns es (record { agg = agg; bus = bus; last_late = 0; warned = [] }) ≡ some u
      → run agg (calls es) ≡ some (z, fs)
      → Follows u bus z fs
      → Finished agg bus es
  unfolding run_aggregator close
  close-Finished agg bus es u z fs returned ran follows =
      let closed : (close u).bus ≡ publish_all channel send stream_key (all_frames z fs) bus =
        ap (λ b. publish_some (flush u.agg).1 b) follows.bus_is
        ∙ ap (λ a. publish_some (flush a).1 (publish_all channel send stream_key fs bus))
            follows.agg
        ∙ sym (publish_last fs (flush z).1 bus) in
      record {
        final = close u;
        z = z;
        fs = fs;
        returns = rw returned refl;
        ran = ran;
        flushed = ap (λ a. (flush a).0) follows.agg;
        sent =
            ap (channel_at channel send stream_key) closed
            ∙ publish_all-channel_at channel send stream_key (all_frames z fs) bus;
        others = λ k. elim (Bool-cases (stream_key == k)) [
          | inl same ↦ rw same refl
          | inr other ↦ rw other (
              ap (λ b. lookup k b.channels) closed
              ∙ publish_all-other channel send stream_key k (all_frames z fs) bus other)
        ];
        warned_all = follows.warned_all;
      }

  -- The task over a new aggregator, whose window has not wrapped to zero, returns, whatever its events:
  -- the aggregator had exactly the
  -- calls of those events and then its flush, its stream's channel was sent exactly the frames of
  -- the run and of the flush, in order, the channels of the other streams are as they were, and the
  -- warnings add up to the last count of late trades that it logged.
  pub run_aggregator-Finished :
      (key : SymbolKey) (bucket_step window_ms diff_ms : ℤ) (agg : Aggregator)
      → new key bucket_step window_ms diff_ms ≡ some agg
      → 1 ≤ agg.window_ns
      → (bus : ClusterBus Channel) (es : List Event) → Finished agg bus es
  run_aggregator-Finished key bucket_step window_ms diff_ms agg e nonzero bus es =
      let (z, fs, ran, well) =
        run-total key bucket_step window_ms diff_ms agg e nonzero (calls es) in
      let (u, returned, follows) =
        turns-Follows es (record { agg = agg; bus = bus; last_late = 0; warned = [] }) z fs refl
          ran in
      close-Finished agg bus es u z fs returned ran follows
