-- ===== src/Ingest/Universe/Ranking.antt =====
-- What `top_n` of crates/cluster-ingest/src/binance_supervisor.rs keeps of the symbols ranked by
-- volume.
use mathlib.Core.Path.{subst}
use mathlib.Core.List.{Permᴰ}
use mathlib.Core.List.Permᴰ
use trading_terminal_cluster.Common.{
  ℕ, zero, suc, List, [], ◌∷◌, Bool, true, false, ◌≡◌, refl, inl, inr, some, arith,
}
use trading_terminal_cluster.Common.Lists.{All, take, drop}
use trading_terminal_cluster.Common.Tests.{Bool-cases}
use trading_terminal_cluster.Common.Text.{Text}
use trading_terminal_cluster.Core.{SymbolSpec}
use trading_terminal_cluster.Ingest.Universe.{
  volume_of, insert_by_volume, sort_by_volume, are_numbers, is_ordered, rank_specs,
}
use trading_terminal_cluster.Ingest.Config.{volume_24h}

-- The laws of `f64`'s order: the second holds of numbers only, as a NaN is not below anything.
module _ {V : Type 0} (less : V → V → Bool) (is_nan : V → Bool) (zero_volume : V)
    (volumes : List (Text × V)) (asymmetric : (x y : V) → less x y ≡ true → less y x ≡ false)
    (transitive : (x y z : V)
      → is_nan x ≡ false
      → is_nan y ≡ false
      → is_nan z ≡ false
      → less x y ≡ false
      → less y z ≡ false
      → less x z ≡ false) where
  abbrev volume : SymbolSpec → V
  volume = volume_of less is_nan zero_volume volumes

  abbrev NotBelow : SymbolSpec → SymbolSpec → Type 0
  NotBelow s t = less (volume s) (volume t) ≡ false

  Descending : List SymbolSpec → Type 0
  Descending [] = Unit
  Descending (s ∷ ss) = All (NotBelow s) ss × Descending ss

  All-insert :
      (P : SymbolSpec → Type 0) (s : SymbolSpec) (ts : List SymbolSpec)
      → P s
      → All P ts
      → All P (insert_by_volume less is_nan zero_volume volumes s ts)
  unfolding insert_by_volume
  All-insert P s [] ps h = (ps, _)
  All-insert P s (t ∷ ts) ps (pt, h) = elim (Bool-cases (less (volume s) (volume t))) [
    | inl behind ↦ rw behind (pt, All-insert P s ts ps h)
    | inr before ↦ rw before (ps, (pt, h))
  ]

  abbrev IsNumber : SymbolSpec → Type 0
  IsNumber s = is_nan (volume s) ≡ false

  All-weaken :
      (s t : SymbolSpec) (ts : List SymbolSpec)
      → IsNumber s
      → IsNumber t
      → All IsNumber ts
      → NotBelow s t
      → All (NotBelow t) ts
      → All (NotBelow s) ts
  All-weaken s t [] s_ok t_ok ok st h = _
  All-weaken s t (u ∷ ts) s_ok t_ok (u_ok, ok) st (tu, h) = (
    transitive (volume s) (volume t) (volume u) s_ok t_ok u_ok st tu,
    All-weaken s t ts s_ok t_ok ok st h,
  )

  insert-Descending :
      (s : SymbolSpec) (ts : List SymbolSpec)
      → IsNumber s
      → All IsNumber ts
      → Descending ts
      → Descending (insert_by_volume less is_nan zero_volume volumes s ts)
  unfolding insert_by_volume Descending
  insert-Descending s [] s_ok ok d = (_, _)
  insert-Descending s (t ∷ ts) s_ok (t_ok, ok) (top, d) =
      elim (Bool-cases (less (volume s) (volume t))) [
        | inl behind ↦ rw behind (
          All-insert (NotBelow t) s ts (asymmetric (volume s) (volume t) behind) top,
          insert-Descending s ts s_ok ok d,
        )
        | inr before ↦ rw before ((before, All-weaken s t ts s_ok t_ok ok before top), (top, d))
      ]

  All-sort :
      (P : SymbolSpec → Type 0) (ss : List SymbolSpec)
      → All P ss
      → All P (sort_by_volume less is_nan zero_volume volumes ss)
  unfolding sort_by_volume
  All-sort P [] h = _
  All-sort P (s ∷ ss) (p, h) = All-insert P s _ p (All-sort P ss h)

  sort-Descending :
      (ss : List SymbolSpec)
      → All IsNumber ss
      → Descending (sort_by_volume less is_nan zero_volume volumes ss)
  unfolding sort_by_volume Descending
  sort-Descending [] ok = _
  sort-Descending (s ∷ ss) (s_ok, ok) =
      insert-Descending s (sort_by_volume less is_nan zero_volume volumes ss) s_ok
        (All-sort IsNumber ss ok) (sort-Descending ss ok)

  All-numbers :
      (ss : List SymbolSpec)
      → are_numbers less is_nan zero_volume volumes ss ≡ true
      → All IsNumber ss
  unfolding are_numbers
  All-numbers [] h = _
  All-numbers (s ∷ ss) h = (ground (arith, h), All-numbers ss (ground (arith, h)))

  ordered-Descending :
      (ss : List SymbolSpec)
      → is_ordered less is_nan zero_volume volumes ss ≡ true
      → Descending (sort_by_volume less is_nan zero_volume volumes ss)
  unfolding is_ordered Descending sort_by_volume insert_by_volume
  ordered-Descending [] h = _
  ordered-Descending (s ∷ []) h = (_, _)
  ordered-Descending (s ∷ t ∷ ss) h = sort-Descending (s ∷ t ∷ ss) (All-numbers (s ∷ t ∷ ss) h)

  insert-Permᴰ :
      (s : SymbolSpec) (ts : List SymbolSpec)
      → Permᴰ (insert_by_volume less is_nan zero_volume volumes s ts) (s ∷ ts)
  unfolding insert_by_volume
  insert-Permᴰ s [] = Permᴰ.refl (s ∷ [])
  insert-Permᴰ s (t ∷ ts) = elim (Bool-cases (less (volume s) (volume t))) [
    | inl behind ↦
        rw behind (Permᴰ.trans (Permᴰ.cons refl (insert-Permᴰ s ts)) (Permᴰ.swap refl refl))
    | inr before ↦ rw before (Permᴰ.refl (s ∷ t ∷ ts))
  ]

  sort-Permᴰ : (ss : List SymbolSpec) → Permᴰ (sort_by_volume less is_nan zero_volume volumes ss) ss
  unfolding sort_by_volume
  sort-Permᴰ [] = Permᴰ.nil
  sort-Permᴰ (s ∷ ss) =
      Permᴰ.trans (insert-Permᴰ s (sort_by_volume less is_nan zero_volume volumes ss))
        (Permᴰ.cons refl (sort-Permᴰ ss))

  All-drop : (P : SymbolSpec → Type 0) (n : ℕ) (ss : List SymbolSpec) → All P ss → All P (drop n ss)
  All-drop P zero ss h = h
  All-drop P (suc n) [] h = _
  All-drop P (suc n) (s ∷ ss) (_, h) = All-drop P n ss h

  top-Descending :
      (n : ℕ) (ss : List SymbolSpec)
      → Descending ss
      → All (λ s. All (NotBelow s) (drop n ss)) (take n ss)
  unfolding Descending
  top-Descending zero ss d = _
  top-Descending (suc n) [] d = _
  top-Descending (suc n) (s ∷ ss) (top, d) = (All-drop (NotBelow s) n ss top, top-Descending n ss d)

  -- Symbols that are ranked by volume, as no NaN is compared, are the same as before, and none of the
  -- first `n` has a smaller volume than one of the rest.
  pub rank_specs-take :
      (n : ℕ) (ss ranked : List SymbolSpec)
      → rank_specs less is_nan zero_volume volume_24h (some (some volumes)) ss ≡ some ranked
      → Permᴰ ranked ss
        × All (λ s. All (λ t. less (volume s) (volume t) ≡ false) (drop n ranked)) (take n ranked)
  unfolding rank_specs
  rank_specs-take n ss ranked h =
      elim (Bool-cases (is_ordered less is_nan zero_volume volumes ss)) [
        | inl ordered ↦
            let is : sort_by_volume less is_nan zero_volume volumes ss ≡ ranked =
              ground (arith, ordered, h) in
            (
              subst (λ rs. Permᴰ rs ss) is (sort-Permᴰ ss),
              top-Descending n ranked (subst Descending is (ordered-Descending ss ordered)),
            )
        | inr unordered ↦ absurd (ground (arith, unordered, h))
      ]
