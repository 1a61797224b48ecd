-- ===== src/Engine/Aggregator/Footprint.antt =====
-- What the accumulators of crates/cluster-engine/src/aggregator.rs hold, told by the trades alone.
pub mod Volume
pub mod Prices
pub mod Runs
use Prim.Native.Nat.{min}
use trading_terminal_cluster.Common.{ℕ, ◌+◌, ◌≤◌, List, [], ◌∷◌, Option, none, some, ◌≡◌, ◌⊎◌}
use trading_terminal_cluster.Common.Lists.{All}
use trading_terminal_cluster.Common.Tests.{if◌then◌else◌, nat_beq}
use trading_terminal_cluster.Common.Int.{ℤ, pos, pos_part, neg_part, ltb_ℤ, int_beq, ◌≤ℤ◌}
use trading_terminal_cluster.Common.Machine.{max_i64, max_u32, round_to}
use trading_terminal_cluster.Core.{AggressorSide, bid, ask, TradePrint}
use trading_terminal_cluster.Engine.Aggregator.{ClusterAccum}

abbrev pub window_of : ℕ → TradePrint → ℤ
window_of window_ns t = round_to t.exchange_ts_ns window_ns

-- The trades of the open window, newest first, when `t` arrives: a later window forgets the
-- others, an earlier one does not count.
unfoldable pub admit : ℕ → List TradePrint → TradePrint → List TradePrint
admit ns [] t = t ∷ []
admit ns (s ∷ ts) t =
    if ltb_ℤ (window_of ns s) (window_of ns t)
    then t ∷ []
    else if ltb_ℤ (window_of ns t) (window_of ns s)
    then s ∷ ts
    else t ∷ s ∷ ts

abbrev pub open_window : ℕ → List TradePrint → Option ℤ
open_window ns [] = none
open_window ns (t ∷ ts) = some (window_of ns t)

abbrev pub side_qty : AggressorSide → TradePrint → ℕ
side_qty bid t = elim t.aggressor [ bid ↦ pos_part t.qty | ask ↦ 0 ]
side_qty ask t = elim t.aggressor [ bid ↦ 0 | ask ↦ pos_part t.qty ]

-- The quantity that one side traded in the bucket of a price, and the number of its trades.
unfoldable pub volume : ℕ → AggressorSide → ℤ → List TradePrint → ℕ
volume step side p [] = 0
volume step side p (t ∷ ts) =
    (if int_beq (round_to t.price step) p then side_qty side t else 0) + volume step side p ts

unfoldable pub count : ℕ → ℤ → List TradePrint → ℕ
count step p [] = 0
count step p (t ∷ ts) = (if int_beq (round_to t.price step) p then 1 else 0) + count step p ts

-- The bucket of a price: the sums, cut where the machine's integers end.
abbrev pub footprint : ℕ → ℤ → List TradePrint → Option ClusterAccum
footprint step p ts =
    if nat_beq (count step p ts) 0
    then none
    else some (record {
      bid_qty = pos (min (volume step bid p ts) max_i64);
      ask_qty = pos (min (volume step ask p ts) max_i64);
      trades = min (count step p ts) max_u32;
    })

-- What the exchanges send: no negative quantity, and a price above zero.
abbrev pub IsRegular : TradePrint → Type 0
IsRegular t = (neg_part t.qty ≡ 0) × (1 ≤ pos_part t.price)

abbrev pub Attains : ℤ → List TradePrint → Type 0
Attains z [] = ⊥
Attains z (t ∷ ts) = (t.price ≡ z) ⊎ Attains z ts

abbrev pub oldest_price : TradePrint → List TradePrint → ℤ
oldest_price t [] = t.price
oldest_price t (s ∷ ts) = oldest_price s ts

-- The prices of a bar: first, last, and the bounds, which are reached.
abbrev pub IsBar : ℤ → ℤ → ℤ → ℤ → List TradePrint → Type 0
IsBar open_price close_price high_price low_price [] = Unit {0}
IsBar open_price close_price high_price low_price (t ∷ ts) =
    (open_price ≡ oldest_price t ts)
    × (close_price ≡ t.price)
    × All (λ s. s.price ≤ℤ high_price) (t ∷ ts)
    × Attains high_price (t ∷ ts)
    × All (λ s. low_price ≤ℤ s.price) (t ∷ ts)
    × Attains low_price (t ∷ ts)
