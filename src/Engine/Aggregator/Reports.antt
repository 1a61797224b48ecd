-- ===== src/Engine/Aggregator/Reports.antt =====
-- The aggregator of crates/cluster-engine/src/aggregator.rs from its construction on: what any
-- sequence of calls leaves, and what the closing snapshot reports.
use trading_terminal_cluster.Common.{
  ◌≤◌, List, [], ◌∷◌, Option, some, ◌≡◌, refl, sym, ap, ◌∙◌, arith,
}
use mathlib.Core.Path.{subst, subst₂}
use trading_terminal_cluster.Common.Lists.{All}
use trading_terminal_cluster.Common.Int.{ℤ, ◌<ℤ◌}
use trading_terminal_cluster.Common.Eq.{int_eq}
use trading_terminal_cluster.Core.{TradePrint, SymbolKey, ClusterFrame, snapshot, AnalyticsSnapshot}
use trading_terminal_cluster.Engine.Aggregator.{
  Aggregator, new, run, Call, ingest, cons_frame, build_closing_snapshot,
}
use trading_terminal_cluster.Engine.Aggregator.Buckets.{find_bucket}
use trading_terminal_cluster.Engine.Aggregator.Invariant.{WellFormed, new-WellFormed}
use trading_terminal_cluster.Engine.Aggregator.Steps.{
  step-Steps, Stepped-WellFormed, Ingested, opens, stays, late, rolls, ingest-Ingested,
}
use trading_terminal_cluster.Engine.Aggregator.Footprint.{window_of, footprint, IsBar}
use trading_terminal_cluster.Engine.Aggregator.Footprint.Runs.{
  RegularCall, observe_all, reported, Represents, run-Represents, new-Represents, closing_snapshot,
}

run-WellFormed :
    (a : Aggregator) (cs : List Call)
    → WellFormed a
    → (z : Aggregator) × (fs : List ClusterFrame) × (run a cs ≡ some (z, fs)) × WellFormed z
unfolding run
run-WellFormed a [] v = (a, [], refl, v)
run-WellFormed a (c ∷ cs) v =
    let (b, f, e, s) = step-Steps a c v in
    let (z, fs, rest, vz) = run-WellFormed b cs (Stepped-WellFormed a c b f s v) in
    (z, cons_frame f fs, ground (arith, e, rest), vz)

-- An aggregator that `new` made and whose window has not wrapped to zero never panics: whatever calls
-- follow, the run returns, and every price of its dirty sets still has an accumulator in the state
-- that it reaches.
pub run-total :
    (key : SymbolKey) (bucket_step window_ms diff_ms : ℤ) (a : Aggregator)
    → new key bucket_step window_ms diff_ms ≡ some a
    → 1 ≤ a.window_ns
    → (cs : List Call)
    → (z : Aggregator) × (fs : List ClusterFrame) × (run a cs ≡ some (z, fs)) × WellFormed z
run-total key bucket_step window_ms diff_ms a e nonzero cs =
    run-WellFormed a cs (new-WellFormed key bucket_step window_ms diff_ms e nonzero)

-- After any calls with regular trades (no negative quantity, positive prices) on a new aggregator
-- whose window has not wrapped to zero, the accumulators hold for every price the volume of each side and the number of trades in its
-- bucket over the admitted trades of the open window, cut at the largest i64 and u32, and the four
-- prices are the first, the last and the reached bounds of those trades.
pub run-footprint :
    (key : SymbolKey) (bucket_step window_ms diff_ms : ℤ) (a : Aggregator)
    → new key bucket_step window_ms diff_ms ≡ some a
    → 1 ≤ a.window_ns
    → (cs : List Call) → All RegularCall cs
    → (z : Aggregator) × (fs : List ClusterFrame) × (run a cs ≡ some (z, fs))
      × Represents a.bucket_step a.window_ns z (observe_all a.window_ns [] cs)
run-footprint key bucket_step window_ms diff_ms a e nonzero cs h =
    let (z, fs, ran, r, _) =
      run-Represents a.bucket_step a.window_ns a cs []
        (new-WellFormed key bucket_step window_ms diff_ms e nonzero)
        (new-Represents key bucket_step window_ms diff_ms e) h in
    (z, fs, ran, r)

rolled_frame :
    (a : Aggregator) (t s : TradePrint) (ts : List TradePrint) (b : Aggregator)
    (f : Option ClusterFrame)
    → Ingested a t b f
    → a.current_window_start_ns ≡ some (window_of a.window_ns s)
    → window_of a.window_ns s <ℤ window_of a.window_ns t
    → f ≡ some (build_closing_snapshot a).1
rolled_frame a t s ts b f (opens e) w lt = absurd (cc (e, w))
rolled_frame a t s ts b f (stays e) w lt = absurd (ground (arith, e, w))
rolled_frame a t s ts b f (late v e gt) w lt = absurd (ground (arith, e, w))
rolled_frame a t s ts b f (rolls v e gt) w lt = refl

-- When a trade of a later window arrives after any such calls of such an aggregator, `ingest` gives a snapshot that
-- carries the start of the window that closes, for every price exactly the bucket of that window's
-- admitted trades, and their open, close, high and low prices.
pub run-closing :
    (key : SymbolKey) (bucket_step window_ms diff_ms : ℤ) (a : Aggregator)
    → new key bucket_step window_ms diff_ms ≡ some a
    → 1 ≤ a.window_ns
    → (cs : List Call) → All RegularCall cs
    → (z : Aggregator) (fs : List ClusterFrame) → run a cs ≡ some (z, fs)
    → (s : TradePrint) (ts : List TradePrint) → observe_all a.window_ns [] cs ≡ s ∷ ts
    → (t : TradePrint) → window_of a.window_ns s <ℤ window_of a.window_ns t
    → (snap : AnalyticsSnapshot) × ((ingest z t).1 ≡ some (snapshot snap))
      × (snap.window_start_ns ≡ window_of a.window_ns s)
      × ((p : ℤ) → find_bucket p snap.clusters ≡ reported p (footprint a.bucket_step p (s ∷ ts)))
      × IsBar snap.open_price snap.close_price snap.high_price snap.low_price (s ∷ ts)
run-closing key bucket_step window_ms diff_ms a e nonzero cs h z fs ran s ts trades t lt =
    let (z', fs', ran', r') = run-footprint key bucket_step window_ms diff_ms a e nonzero cs h in
    let same : z' ≡ z = cc in
    let r : Represents a.bucket_step a.window_ns z (s ∷ ts) =
      subst₂ (Represents a.bucket_step a.window_ns) same trades r' in
    let (snap, shown, window, buckets, bar) = closing_snapshot a.bucket_step a.window_ns z s ts r in
    let same_ns : a.window_ns ≡ z.window_ns = sym r.ns_is in
    let rolled =
      rolled_frame z t s ts (ingest z t).0 (ingest z t).1 (ingest-Ingested z t)
        (r.window ∙ ap (λ n. some (window_of n s)) same_ns)
        (subst (λ n. window_of n s <ℤ window_of n t) same_ns lt) in
    (snap, rolled ∙ ap some shown, window, buckets, bar)
