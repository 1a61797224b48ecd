-- ===== src/Engine/Aggregator/Follower.antt =====
-- A consumer of the frames of crates/cluster-engine/src/aggregator.rs, as the terminal and the
-- table of the sink are: it keeps the last bucket of each price of the last window.
use mathlib.Core.Bool.{◌&&◌}
use mathlib.Core.Path.{subst, subst₂}
use trading_terminal_cluster.Common.{
  ◌≤◌, List, [], ◌∷◌, Option, none, some, ◌≡◌, refl, sym, ap, ◌∙◌, inl, inr, arith, true, false,
}
use trading_terminal_cluster.Common.Tests.{if◌then◌else◌, Bool-cases}
use trading_terminal_cluster.Common.Int.{ℤ, pos, ◌<ℤ◌, int_beq, int_beq_iff}
use trading_terminal_cluster.Common.Eq.{int_eq}
use trading_terminal_cluster.Common.Machine.{round_to}
use trading_terminal_cluster.Common.Map.{
  lookup, lookup-insert, member, member-set_insert, contains_key, contains_key-lookup,
}
use trading_terminal_cluster.Core.{
  TradePrint, ClusterBucket, ClusterFrame, snapshot, diff, SymbolKey,
}
use trading_terminal_cluster.Engine.Aggregator.{
  Aggregator, ClusterAccum, new, run, Call, record_trade, update_ohlc, add_trade, accum_or_default,
  build_closing_snapshot, buckets_for, cons_frame, bucket_of, window_or_zero,
}
use trading_terminal_cluster.Engine.Aggregator.Buckets.{find_bucket, bucket_in, find-buckets_for}
use trading_terminal_cluster.Engine.Aggregator.Invariant.{WellFormed, new-WellFormed}
use trading_terminal_cluster.Engine.Aggregator.Steps.{
  Ingested, opens, stays, late, rolls, Stepped, ingested, idle_pulse, idle_delta, pulsed, emitted,
  step-Steps, Stepped-WellFormed, pulsed_frame, delta_frame,
}

pub record Follower : Type 0 where
  pub window : Option ℤ
  pub book : ℤ → Option ClusterBucket

abbrev pub start : Follower
start = record { window = none; book = λ p. none }

abbrev pub frame_window : ClusterFrame → ℤ
frame_window (snapshot s) = s.window_start_ns
frame_window (diff d) = d.window_start_ns

abbrev pub frame_buckets : ClusterFrame → List ClusterBucket
frame_buckets (snapshot s) = s.clusters
frame_buckets (diff d) = d.upserts

-- What the follower holds for a window.
abbrev pub seen : Follower → Option ℤ → ℤ → Option ClusterBucket
seen c none p = none
seen c (some w) p = elim c.window [ none ↦ none | some v ↦ if int_beq v w then c.book p else none ]

abbrev pub or_else {ℓ} : {A : Type ℓ} → Option A → Option A → Option A
or_else none b = b
or_else (some a) b = some a

-- A frame overwrites the buckets that it carries; a frame of another window starts anew.
abbrev pub receive : Follower → ClusterFrame → Follower
receive c f = record {
  window = some (frame_window f);
  book = λ p. or_else (find_bucket p (frame_buckets f)) (seen c (some (frame_window f)) p);
}

abbrev pub receive_opt : Follower → Option ClusterFrame → Follower
receive_opt c none = c
receive_opt c (some f) = receive c f

abbrev pub receive_all : Follower → List ClusterFrame → Follower
receive_all c [] = c
receive_all c (f ∷ fs) = receive_all (receive c f) fs

-- The follower is right on every price that one of the two sets has let go since its last trade.
pub record Synced (c : Follower) (a : Aggregator) : Type 0 where
  pub right :
      (p : ℤ)
      → (member p a.dirty && member p a.partial_dirty) ≡ false
      → seen c a.current_window_start_ns p ≡ bucket_in p a.accum
  pub nothing_yet : a.current_window_start_ns ≡ none → c.window ≡ none

record_trade_other :
    (a : Aggregator) (t : TradePrint) (p : ℤ)
    → (member p (record_trade a t).dirty && member p (record_trade a t).partial_dirty) ≡ false
    → ((member p a.dirty && member p a.partial_dirty) ≡ false)
      × (bucket_in p (record_trade a t).accum ≡ bucket_in p a.accum)
unfolding record_trade update_ohlc bucket_in
record_trade_other a t p h =
    let k : ℤ = round_to t.price a.bucket_step in
    let acc : ClusterAccum = add_trade (accum_or_default k a.accum) t.aggressor t.qty in
    ground (
      arith,
      int_beq_iff k p,
      member-set_insert k p a.dirty,
      member-set_insert k p a.partial_dirty,
      lookup-insert k p acc a.accum,
    )

record_trade_window :
    (a : Aggregator) (t : TradePrint)
    → (record_trade a t).current_window_start_ns ≡ a.current_window_start_ns
unfolding record_trade update_ohlc
record_trade_window a t = ground arith

-- A trade keeps a follower right that was right on the state before, window included.
record_trade-Synced :
    (c : Follower) (a : Aggregator) (t : TradePrint) → Synced c a → Synced c (record_trade a t)
record_trade-Synced c a t s = record {
  right = λ p h.
      let (before, same) = record_trade_other a t p h in
      ap (λ w. seen c w p) (record_trade_window a t) ∙ s.right p before ∙ sym same;
  nothing_yet = λ e. s.nothing_yet (sym (record_trade_window a t) ∙ e);
}

empty_bucket : (p : ℤ) → bucket_in p [] ≡ none
unfolding bucket_in lookup
empty_bucket p = refl

-- On an empty state of a window that the follower has not seen it is right.
unseen-Synced :
    (c : Follower) (a : Aggregator) (w : ℤ)
    → a.current_window_start_ns ≡ some w
    → a.accum ≡ []
    → ((p : ℤ) → seen c (some w) p ≡ none)
    → Synced c a
unseen-Synced c a w e m unseen = record {
  right = λ p _. ap (λ v. seen c v p) e ∙ unseen p ∙ sym (ap (bucket_in p) m ∙ empty_bucket p);
  nothing_yet = λ n. absurd (cc (e, n));
}

closing_window :
    (a : Aggregator) (w : ℤ)
    → a.current_window_start_ns ≡ some w
    → frame_window (build_closing_snapshot a).1 ≡ w
unfolding build_closing_snapshot
closing_window a w e = ap window_or_zero e

lt-beq : (x y : ℤ) → x <ℤ y → int_beq x y ≡ false
lt-beq x y h = ground (arith, int_beq_iff x y)

Ingested-Synced :
    (c : Follower) (a : Aggregator) (t : TradePrint) (b : Aggregator) (f : Option ClusterFrame)
    → Ingested a t b f
    → WellFormed a
    → Synced c a
    → Synced (receive_opt c f) b
Ingested-Synced c a t b f (opens e) v s =
    record_trade-Synced c _ t
      (unseen-Synced c _ _ refl (v.idle e) (λ p. ground (arith, s.nothing_yet e)))
Ingested-Synced c a t b f (stays e) v s = record_trade-Synced c a t s
Ingested-Synced c a t b f (late w e lt) v s = record {
  right = s.right;
  nothing_yet = s.nothing_yet;
}
Ingested-Synced c a t b f (rolls w e lt) v s = record_trade-Synced _ _ t (
    unseen-Synced _ _ _ refl refl (λ p.
      ground (arith, closing_window a w e, lt-beq w (round_to t.exchange_ts_ns a.window_ns) lt)))

covered_bucket :
    (m : List (ℤ × ClusterAccum)) (p : ℤ)
    → contains_key p m ≡ true
    → (b : ClusterBucket) × (bucket_in p m ≡ some b)
unfolding bucket_in
covered_bucket m p h =
    let (acc, found) = contains_key-lookup p m h in (bucket_of p acc, ground (arith, found))

-- A frame of the current window that carries the buckets of the prices `ps` sets these right.
carried :
    (c : Follower) (a : Aggregator) (w : ℤ) (ps : List ℤ) (bs : List ClusterBucket)
    → a.current_window_start_ns ≡ some w
    → buckets_for a.accum ps ≡ some bs
    → ((q : ℤ) → member q ps ≡ true → contains_key q a.accum ≡ true)
    → (p : ℤ) → (member p ps ≡ false → seen c (some w) p ≡ bucket_in p a.accum)
    → or_else (find_bucket p bs) (seen c (some w) p) ≡ bucket_in p a.accum
carried c a w ps bs e found known p old = elim (Bool-cases (member p ps)) [
  | inl inside ↦
      let (b, own) = covered_bucket a.accum p (known p inside) in
      ground (arith, find-buckets_for p a.accum ps bs found, inside, own)
  | inr outside ↦ ground (arith, find-buckets_for p a.accum ps bs found, outside, old outside)
]

seen_received :
    (c : Follower) (f : ClusterFrame) (w p : ℤ)
    → frame_window f ≡ w
    → seen (receive c f) (some w) p ≡ or_else (find_bucket p (frame_buckets f)) (seen c (some w) p)
seen_received c f w p e = ground (arith, int_beq_iff w w)

pub Stepped-Synced :
    (c : Follower) (a : Aggregator) (call : Call) (b : Aggregator) (f : Option ClusterFrame)
    → Stepped a call b f
    → WellFormed a
    → Synced c a
    → Synced (receive_opt c f) b
Stepped-Synced c a call b f (ingested {t} i) v s = Ingested-Synced c a t b f i v s
Stepped-Synced c a call b f (idle_pulse now) v s = s
Stepped-Synced c a call b f idle_delta v s = s
Stepped-Synced c a call b f (pulsed now w bs e found) v s = record {
  right = λ p _.
      ap (λ x. seen (receive c (pulsed_frame a w bs)) x p) e
      ∙ seen_received c (pulsed_frame a w bs) w p refl
      ∙ carried c a w a.dirty bs e found v.dirty_known p
          (λ out. ap (λ x. seen c x p) (sym e) ∙ s.right p (ground (arith, out)));
  nothing_yet = λ n. absurd (cc (e, n));
}
Stepped-Synced c a call b f (emitted w bs e found) v s = record {
  right = λ p _.
      ap (λ x. seen (receive c (delta_frame a w bs)) x p) e
      ∙ seen_received c (delta_frame a w bs) w p refl
      ∙ carried c a w a.partial_dirty bs e found v.partial_known p
          (λ out. ap (λ x. seen c x p) (sym e) ∙ s.right p (ground (arith, out)));
  nothing_yet = λ n. absurd (cc (e, n));
}

receive-cons_frame :
    (c : Follower) (f : Option ClusterFrame) (fs : List ClusterFrame)
    → receive_all c (cons_frame f fs) ≡ receive_all (receive_opt c f) fs
receive-cons_frame c none fs = refl
receive-cons_frame c (some f) fs = refl

run-Synced :
    (c : Follower) (a : Aggregator) (cs : List Call)
    → WellFormed a
    → Synced c a
    → (z : Aggregator) × (fs : List ClusterFrame) × (run a cs ≡ some (z, fs))
      × Synced (receive_all c fs) z
unfolding run
run-Synced c a [] v s = (a, [], refl, s)
run-Synced c a (call ∷ cs) v s =
    let (b, f, e, st) = step-Steps a call v in
    let (z, fs, rest, sz) =
      run-Synced (receive_opt c f) b cs (Stepped-WellFormed a call b f st v)
        (Stepped-Synced c a call b f st v s) in
    (
      z,
      cons_frame f fs,
      ground (arith, e, rest),
      subst (λ d. Synced d z) (sym (receive-cons_frame c f fs)) sz,
    )

start-Synced :
    (key : SymbolKey) (bucket_step window_ms diff_ms : ℤ) {a : Aggregator}
    → new key bucket_step window_ms diff_ms ≡ some a
    → Synced start a
unfolding new
start-Synced key (pos x) (pos y) (pos z) e = record {
  right = λ p _. unfold bucket_in lookup in ground arith;
  nothing_yet = λ _. refl;
}
start-Synced key _ _ _ e = absurd (ground arith)

-- Whatever calls a new aggregator, whose window has not wrapped to zero, has had, a follower that received every frame holds exactly the
-- accumulated bucket of the open window, for each price that is not waiting in both dirty sets: so
-- it lacks nothing after a pulse, and nothing after a delta, that emitted.
pub follower_right :
    (key : SymbolKey) (bucket_step window_ms diff_ms : ℤ) (a : Aggregator)
    → new key bucket_step window_ms diff_ms ≡ some a
    → 1 ≤ a.window_ns
    → (cs : List Call) (z : Aggregator) (fs : List ClusterFrame) → run a cs ≡ some (z, fs)
    → (p : ℤ) → (member p z.dirty && member p z.partial_dirty) ≡ false
    → seen (receive_all start fs) z.current_window_start_ns p ≡ bucket_in p z.accum
follower_right key bucket_step window_ms diff_ms a e nonzero cs z fs ran =
    let (z', fs', ran', s) =
      run-Synced start a cs (new-WellFormed key bucket_step window_ms diff_ms e nonzero)
        (start-Synced key bucket_step window_ms diff_ms e) in
    let same_state : z' ≡ z = cc in
    let same_frames : fs' ≡ fs = cc in
    (subst₂ (λ x y. Synced (receive_all start x) y) same_frames same_state s).right
