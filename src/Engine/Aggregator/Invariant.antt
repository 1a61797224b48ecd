-- ===== src/Engine/Aggregator/Invariant.antt =====
-- The state invariant of crates/cluster-engine/src/aggregator.rs, and that no call panics.
use trading_terminal_cluster.Common.{◌≤◌, List, [], Option, none, some, true, ◌≡◌, ◌≢◌, refl, arith}
use trading_terminal_cluster.Common.Int.{ℤ, pos}
use trading_terminal_cluster.Common.Eq.{int_eq}
use trading_terminal_cluster.Common.Machine.{round_to}
use trading_terminal_cluster.Common.Map.{
  contains_key, contains_key-insert, insert, member, member-set_insert, set_insert,
}
use trading_terminal_cluster.Core.{SymbolKey, TradePrint}
use trading_terminal_cluster.Engine.Aggregator.{
  Aggregator, ClusterAccum, new, record_trade, update_ohlc, accum_or_default, add_trade, cleared,
}

-- Every price of the set has an accumulator.
abbrev pub Covers : List (ℤ × ClusterAccum) → List ℤ → Type 0
Covers m ps = (p : ℤ) → member p ps ≡ true → contains_key p m ≡ true

pub record WellFormed (a : Aggregator) : Type 0 where
  pub step_pos : 1 ≤ a.bucket_step
  pub window_pos : 1 ≤ a.window_ns
  pub dirty_known : Covers a.accum a.dirty
  pub partial_known : Covers a.accum a.partial_dirty
  pub idle : a.current_window_start_ns ≡ none → a.accum ≡ []

Covers-insert :
    (m : List (ℤ × ClusterAccum)) (ps : List ℤ) (k : ℤ) (acc : ClusterAccum)
    → Covers m ps
    → Covers (insert k acc m) (set_insert k ps)
Covers-insert m ps k acc h p e =
    ground (arith, contains_key-insert k p acc m, member-set_insert k p ps, h p)

pub new-WellFormed :
    (key : SymbolKey) (bucket_step window_ms diff_ms : ℤ) {a : Aggregator}
    → new key bucket_step window_ms diff_ms ≡ some a
    → 1 ≤ a.window_ns
    → WellFormed a
unfolding new
new-WellFormed key (pos s) (pos w) (pos d) e nonzero = record {
  step_pos = ground arith;
  window_pos = nonzero;
  dirty_known = λ p k. unfold member in ground arith;
  partial_known = λ p k. unfold member in ground arith;
  idle = λ _. ground arith;
}
new-WellFormed key _ _ _ e _ = absurd (ground arith)

pub record_trade-WellFormed :
    (a : Aggregator) (t : TradePrint)
    → WellFormed a
    → a.current_window_start_ns ≢ none
    → WellFormed (record_trade a t)
unfolding record_trade update_ohlc
record_trade-WellFormed a t v busy =
    let p : ℤ = round_to t.price a.bucket_step in
    let acc : ClusterAccum = add_trade (accum_or_default p a.accum) t.aggressor t.qty in
    record {
      step_pos = ground arith;
      window_pos = ground arith;
      dirty_known = λ q k. ground (arith, Covers-insert a.accum a.dirty p acc v.dirty_known q);
      partial_known =
          λ q k. ground (arith, Covers-insert a.accum a.partial_dirty p acc v.partial_known q);
      idle = λ none_now. absurd (busy (ground arith));
    }

-- A state in which nothing is accumulated is well formed whatever its window.
pub cleared-WellFormed : (w : Option ℤ) (a : Aggregator) → WellFormed a → WellFormed (cleared w a)
cleared-WellFormed w a v = record {
  step_pos = v.step_pos;
  window_pos = v.window_pos;
  dirty_known = λ p k. unfold member in ground arith;
  partial_known = λ p k. unfold member in ground arith;
  idle = λ _. refl;
}

pub with_sequence-WellFormed :
    (z : ℤ) (a : Aggregator) → WellFormed a → WellFormed (record a { sequence = z })
with_sequence-WellFormed z a v = record {
  step_pos = v.step_pos;
  window_pos = v.window_pos;
  dirty_known = v.dirty_known;
  partial_known = v.partial_known;
  idle = v.idle;
}

pub opened-WellFormed :
    (w : ℤ) (a : Aggregator)
    → WellFormed a
    → WellFormed (record a { current_window_start_ns = some w })
opened-WellFormed w a v = record {
  step_pos = v.step_pos;
  window_pos = v.window_pos;
  dirty_known = v.dirty_known;
  partial_known = v.partial_known;
  idle = λ e. absurd (ground arith);
}
