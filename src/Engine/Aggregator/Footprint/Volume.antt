-- ===== src/Engine/Aggregator/Footprint/Volume.antt =====
-- A recorded trade adds to its own bucket and to no other.
use Prim.Native.Nat.{min}
use trading_terminal_cluster.Common.{ℕ, List, [], ◌∷◌, some, ◌≡◌, refl, sym, inl, inr, arith, false}
use trading_terminal_cluster.Common.Tests.{Bool-cases}
use trading_terminal_cluster.Common.Int.{ℤ, pos, pos_part, neg_part, int_beq, int_beq_iff}
use trading_terminal_cluster.Common.Eq.{int_eq}
use trading_terminal_cluster.Common.Machine.{
  max_i64, max_u32, round_to, saturating_add-min, saturating_add_u32-min,
}
use trading_terminal_cluster.Common.Map.{lookup, insert, lookup-insert}
use trading_terminal_cluster.Core.{AggressorSide, bid, ask, TradePrint}
use trading_terminal_cluster.Engine.Aggregator.{
  Aggregator, ClusterAccum, accum_or_default, add_trade, record_trade, update_ohlc,
}
use trading_terminal_cluster.Engine.Aggregator.Footprint.{volume, count, footprint}

accum-record_trade :
    (a : Aggregator) (t : TradePrint)
    → (record_trade a t).accum
      ≡ insert
          (round_to t.price a.bucket_step)
          (add_trade (accum_or_default (round_to t.price a.bucket_step) a.accum) t.aggressor t.qty)
          a.accum
unfolding record_trade update_ohlc
accum-record_trade a t = ground arith

volume-empty :
    (step : ℕ) (side : AggressorSide) (p : ℤ) (ts : List TradePrint)
    → count step p ts ≡ 0
    → volume step side p ts ≡ 0
unfolding volume count
volume-empty step side p [] e = refl
volume-empty step side p (t ∷ ts) e = ground (arith, volume-empty step side p ts)

abbrev sums : ℕ → ℤ → List TradePrint → ClusterAccum
sums step p ts = record {
  bid_qty = pos (min (volume step bid p ts) max_i64);
  ask_qty = pos (min (volume step ask p ts) max_i64);
  trades = min (count step p ts) max_u32;
}

accum_or_default-sums :
    (m : List (ℤ × ClusterAccum)) (step : ℕ) (p : ℤ) (ts : List TradePrint)
    → lookup p m ≡ footprint step p ts
    → accum_or_default p m ≡ sums step p ts
unfolding accum_or_default
accum_or_default-sums m step p ts e =
    ground (arith, volume-empty step bid p ts, volume-empty step ask p ts)

as_pos : (z : ℤ) → neg_part z ≡ 0 → z ≡ pos (pos_part z)
as_pos z e = ground arith

add_trade-sums :
    (step : ℕ) (t : TradePrint) (ts : List TradePrint)
    → neg_part t.qty ≡ 0
    → add_trade (sums step (round_to t.price step) ts) t.aggressor t.qty
      ≡ sums step (round_to t.price step) (t ∷ ts)
unfolding add_trade volume count
add_trade-sums step t ts e =
    let p : ℤ = round_to t.price step in
    ground (
      arith,
      int_beq_iff p p,
      as_pos t.qty e,
      saturating_add-min (volume step bid p ts) (pos_part t.qty),
      saturating_add-min (volume step ask p ts) (pos_part t.qty),
      saturating_add_u32-min (count step p ts) 1,
    )

footprint_other :
    (step : ℕ) (t : TradePrint) (ts : List TradePrint) (p : ℤ)
    → int_beq (round_to t.price step) p ≡ false
    → footprint step p (t ∷ ts) ≡ footprint step p ts
unfolding volume count
footprint_other step t ts p e = rw e (ground arith)

footprint_own :
    (step : ℕ) (t : TradePrint) (ts : List TradePrint)
    → footprint step (round_to t.price step) (t ∷ ts)
      ≡ some (sums step (round_to t.price step) (t ∷ ts))
unfolding count
footprint_own step t ts =
    ground (arith, int_beq_iff (round_to t.price step) (round_to t.price step))

-- After a trade each bucket holds the sums over the trades with that one added.
pub lookup-record_trade :
    (a : Aggregator) (t : TradePrint) (ts : List TradePrint)
    → neg_part t.qty ≡ 0
    → ((p : ℤ) → lookup p a.accum ≡ footprint a.bucket_step p ts)
    → (p : ℤ) → lookup p (record_trade a t).accum ≡ footprint a.bucket_step p (t ∷ ts)
lookup-record_trade a t ts e h p =
    let k : ℤ = round_to t.price a.bucket_step in
    let acc = add_trade (accum_or_default k a.accum) t.aggressor t.qty in
    elim (Bool-cases (int_beq k p)) [
      | inl own ↦
          rw
            (
              accum-record_trade a t,
              lookup-insert k p acc a.accum,
              own,
              accum_or_default-sums a.accum a.bucket_step k ts (h k),
              add_trade-sums a.bucket_step t ts e,
              ← (int_beq_iff k p).0 own,
            )
            (sym (footprint_own a.bucket_step t ts))
      | inr other ↦
          rw
            (
              accum-record_trade a t,
              lookup-insert k p acc a.accum,
              other,
              footprint_other a.bucket_step t ts p other,
            )
            (h p)
    ]
