-- ===== src/Ingest/Fanout.antt =====
-- The trade fan-out that `spawn_symbol` of crates/cluster-ingest/src/binance_supervisor.rs starts:
-- each trade goes to the channel of every timeframe. A channel is tokio's, so `try_send` is a
-- parameter; its state holds what the receiver takes in the meantime. Times are milliseconds.
use Prim.Native.Nat.{min}
use trading_terminal_cluster.Common.{
  ℕ, suc, ◌+◌, ◌-◌, ◌≤◌, List, [], ◌∷◌, map, ◌≡◌, refl, ap, ◌∙◌, inl, inr, arith,
}
use trading_terminal_cluster.Common.Tests.{if◌then◌else◌, leb, Bool-cases}
use trading_terminal_cluster.Common.Machine.{max_u64}
use trading_terminal_cluster.Common.Pairwise.{Pairwise, done, both, Pairwise-unmap}
use trading_terminal_cluster.Ingest.{Sent, sent, full, closed, saturating_add_u64}

-- The loop's state for a timeframe, and the times of its warnings, the last one first.
pub record Slot {ℓ} (C : Type ℓ) : Type ℓ where
  pub tx : C
  pub drops_full : ℕ
  pub last_warn_ms : ℕ
  pub warned : List ℕ

unfoldable pub new_slot {ℓ} : {C : Type ℓ} → C → Slot C
new_slot tx = record { tx = tx; drops_full = 0; last_warn_ms = 0; warned = [] }

-- Times are not negative here, so the difference that stops at 0 passes the test when the signed one does.
unfoldable pub after_send {ℓ} : {C : Type ℓ} → ℕ → Sent → Slot C → Slot C
unfolding saturating_add_u64
after_send now sent s = s
after_send now closed s = s
after_send now full s =
    let counted = record s { drops_full = saturating_add_u64 s.drops_full 1 } in
    if leb 5000 (now - s.last_warn_ms)
    then record counted { last_warn_ms = now; warned = now ∷ s.warned }
    else counted

-- The times of the warnings, each at least five seconds after the one before it.
pub data Warned : ℕ → List ℕ → Type 0 where
  never : Warned 0 []
  again : {last now : ℕ} {ws : List ℕ} → Warned last ws → last + 5000 ≤ now → Warned now (now ∷ ws)

module _ {C T : Type 0} (try_send : C → T → C × Sent) where
  unfoldable pub deliver : T → ℕ → Slot C → Slot C
  unfolding after_send
  deliver trade now s =
      let (tx, answer) = try_send s.tx trade in after_send now answer (record s { tx = tx })

  -- One trade to the slots, from this index on; the clock's reading at each index is given.
  unfoldable pub deliver_all : T → (ℕ → ℕ) → ℕ → List (Slot C) → List (Slot C)
  unfolding deliver
  deliver_all trade now i [] = []
  deliver_all trade now i (s ∷ slots) =
      deliver trade (now i) s ∷ deliver_all trade now (suc i) slots

  unfoldable pub fanout : List (T × (ℕ → ℕ)) → List (Slot C) → List (Slot C)
  unfolding deliver_all
  fanout [] slots = slots
  fanout ((trade, now) ∷ trades) slots = fanout trades (deliver_all trade now 0 slots)

  -- A channel that is sent the trades by itself, and how often it is full then.
  unfoldable pub offered : List (T × (ℕ → ℕ)) → C → C
  offered [] tx = tx
  offered ((trade, _) ∷ trades) tx = offered trades (try_send tx trade).0

  unfoldable pub is_full : Sent → ℕ
  is_full full = 1
  is_full _ = 0

  unfoldable pub times_full : List (T × (ℕ → ℕ)) → C → ℕ
  unfolding is_full
  times_full [] tx = 0
  times_full ((trade, _) ∷ trades) tx =
      let (next, answer) = try_send tx trade in is_full answer + times_full trades next

  -- The channel and the drops are those of the trades sent to this channel alone.
  unfoldable pub Served : List (T × (ℕ → ℕ)) → C → Slot C → Type 0
  Served trades tx s =
      (s.tx ≡ offered trades tx)
      × (s.drops_full ≡ min (times_full trades tx) max_u64)
      × Warned s.last_warn_ms s.warned

  -- The same after n earlier drops.
  unfoldable ServedFrom : List (T × (ℕ → ℕ)) → C × ℕ → Slot C → Type 0
  ServedFrom trades (tx, n) s =
      (s.tx ≡ offered trades tx)
      × (s.drops_full ≡ min (n + times_full trades tx) max_u64)
      × Warned s.last_warn_ms s.warned

  unfoldable next_start : T → C × ℕ → C × ℕ
  next_start trade (tx, n) = let (next, answer) = try_send tx trade in (next, n + is_full answer)

  after_send-Warned :
      (now : ℕ) (answer : Sent) (s : Slot C)
      → Warned s.last_warn_ms s.warned
      → Warned (after_send now answer s).last_warn_ms (after_send now answer s).warned
  unfolding after_send
  after_send-Warned now sent s h = h
  after_send-Warned now closed s h = h
  after_send-Warned now full s h = elim (Bool-cases (leb 5000 (now - s.last_warn_ms))) [
    | inl due ↦ rw due (again h (ground (arith, due)))
    | inr early ↦ rw early h
  ]

  after_send-drops :
      (now n : ℕ) (answer : Sent) (s : Slot C)
      → s.drops_full ≡ min n max_u64
      → (after_send now answer s).drops_full ≡ min (n + is_full answer) max_u64
  unfolding after_send is_full saturating_add_u64
  after_send-drops now n sent s h = ground (arith, h)
  after_send-drops now n closed s h = ground (arith, h)
  after_send-drops now n full s h = ground (arith, h)

  after_send-tx : (now : ℕ) (answer : Sent) (s : Slot C) → (after_send now answer s).tx ≡ s.tx
  unfolding after_send
  after_send-tx now sent s = refl
  after_send-tx now closed s = refl
  after_send-tx now full s = ground arith

  deliver-ServedFrom :
      (trade : T) (now : ℕ) (c : C × ℕ) (s : Slot C)
      → ServedFrom [] c s
      → ServedFrom [] (next_start trade c) (deliver trade now s)
  unfolding ServedFrom offered times_full deliver next_start
  deliver-ServedFrom trade now (tx, n) s (at, drops, warned) = (
    after_send-tx now (try_send s.tx trade).1 _ ∙ ap (λ t. (try_send t trade).0) at,
    after_send-drops now n (try_send s.tx trade).1 _ (ground (arith, drops))
        ∙ ap (λ t. min (n + is_full (try_send t trade).1) max_u64) at
        ∙ ap (λ k. min k max_u64) (omega arith),
    after_send-Warned now (try_send s.tx trade).1 _ warned,
  )

  deliver_all-ServedFrom :
      (trade : T) (now : ℕ → ℕ) (i : ℕ) (cs : List (C × ℕ)) (slots : List (Slot C))
      → Pairwise (ServedFrom []) cs slots
      → Pairwise (ServedFrom []) (map (next_start trade) cs) (deliver_all trade now i slots)
  unfolding deliver_all
  deliver_all-ServedFrom trade now i _ _ done = done
  deliver_all-ServedFrom trade now i _ _ (both h hs) =
      both (deliver-ServedFrom trade (now i) _ _ h)
        (deliver_all-ServedFrom trade now (suc i) _ _ hs)

  ServedFrom-next :
      (trade : T) (now : ℕ → ℕ) (trades : List (T × (ℕ → ℕ))) (c : C × ℕ) (s : Slot C)
      → ServedFrom trades (next_start trade c) s
      → ServedFrom ((trade, now) ∷ trades) c s
  unfolding ServedFrom offered times_full next_start
  ServedFrom-next trade now trades (tx, n) s (at, drops, warned) =
      (at, ground (arith, drops), warned)

  fanout-ServedFrom :
      (trades : List (T × (ℕ → ℕ))) (cs : List (C × ℕ)) (slots : List (Slot C))
      → Pairwise (ServedFrom []) cs slots
      → Pairwise (ServedFrom trades) cs (fanout trades slots)
  unfolding fanout
  fanout-ServedFrom [] cs slots h = h
  fanout-ServedFrom ((trade, now) ∷ trades) cs slots h =
      Pairwise-unmap (next_start trade) (ServedFrom-next trade now trades) cs
        (fanout-ServedFrom trades _ _ (deliver_all-ServedFrom trade now 0 cs slots h))

  new_slot-ServedFrom :
      (txs : List C) → Pairwise (ServedFrom []) (map (λ tx. (tx, 0)) txs) (map new_slot txs)
  unfolding ServedFrom offered times_full new_slot
  new_slot-ServedFrom [] = done
  new_slot-ServedFrom (tx ∷ txs) = both (refl, ground arith, never) (new_slot-ServedFrom txs)

  -- Whatever the channels answer, the fan-out leaves each timeframe's channel as if the trades had
  -- been sent to it alone, counts how often it was full, up to the greatest u64, and warns of a
  -- timeframe at most every five seconds.
  pub fanout-Served :
      (trades : List (T × (ℕ → ℕ))) (txs : List C)
      → Pairwise (Served trades) txs (fanout trades (map new_slot txs))
  unfolding Served ServedFrom
  fanout-Served trades txs =
      Pairwise-unmap (λ tx. (tx, 0)) (λ tx s h. (h.0, ground (arith, h.1), h.2)) txs
        (fanout-ServedFrom trades _ _ (new_slot-ServedFrom txs))
