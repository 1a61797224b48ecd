-- ===== src/Adapters/Ticks/Okx.antt =====
-- The instruments that OKX's loop pushes have a tick and a step.
use trading_terminal_cluster.Common.{
  List, [], ◌∷◌, ◌≡◌, ◌⊎◌, refl, sym, inl, inr, ◌||◌, Option, none, some, arith,
}
use trading_terminal_cluster.Common.Int.{ℤ}
use trading_terminal_cluster.Common.Lists.{All}
use trading_terminal_cluster.Common.Tests.{Option-cases, Bool-cases}
use trading_terminal_cluster.Common.Text.{Text, codes}
use trading_terminal_cluster.Common.Json.{Json, or_default, str_field}
use trading_terminal_cluster.Core.{Quote, SymbolSpec}
use trading_terminal_cluster.Scale.{is_empty}
use trading_terminal_cluster.Adapters.{make_spec, scaled_sizes}
use trading_terminal_cluster.Adapters.Okx.{CtMap, normalize_inst_id}
use trading_terminal_cluster.Adapters.Okx.Instruments
use trading_terminal_cluster.Adapters.Okx.Instruments.{
  OkxCategory, swap, spot_pairs, Turn, skipped, panicked, pushed, register, after_push, turns_of,
}
use trading_terminal_cluster.Adapters.Ticks.{Ticked, make_spec-Ticked, scaled_sizes-Positive}

register-Ticked :
    (c : OkxCategory) (ct_val_str : Text) (made spec : SymbolSpec) (ct : Option (ℤ × ℤ))
    → Ticked made
    → register c ct_val_str made ≡ pushed spec ct
    → Ticked spec
unfolding register
register-Ticked spot_pairs ct_val_str made spec ct t h =
    let same : made ≡ spec = ground (arith, h) in rw (sym same) t
register-Ticked swap ct_val_str made spec ct t h =
    let same : made ≡ spec = ground (arith, h) in rw (sym same) t

with_sizes-Ticked :
    (json : Json) (up : Text → Text) (c : OkxCategory) (inst_id : Text) (quote : Quote)
    (tick_str lot ct_val_str : Text) (spec : SymbolSpec) (ct : Option (ℤ × ℤ))
    → Instruments.with_sizes json up c inst_id quote tick_str lot ct_val_str ≡ pushed spec ct
    → Ticked spec
unfolding Instruments.with_sizes
with_sizes-Ticked json up c inst_id quote tick_str lot ct_val_str spec ct h =
    elim (Option-cases (scaled_sizes tick_str lot)) [
      | inl skip ↦ absurd (ground (arith, skip, h))
      | inr (p, found) ↦
          register-Ticked c ct_val_str
            (make_spec (Instruments.market_of c) quote (normalize_inst_id up inst_id) p) spec ct
            (make_spec-Ticked (Instruments.market_of c) quote (normalize_inst_id up inst_id) p
              (scaled_sizes-Positive tick_str lot p found))
            (ground (arith, found, h))
    ]

-- Whatever a turn of OKX's loop pushes.
okx-Ticked :
    (json : Json) (up : Text → Text) (c : OkxCategory) (s : json.Value) (spec : SymbolSpec)
    (ct : Option (ℤ × ℤ))
    → Instruments.turn json up c s ≡ pushed spec ct
    → Ticked spec
unfolding Instruments.turn
okx-Ticked json up c s spec ct h =
    let tick_str = or_default [] (str_field json (codes "tickSz") s) in
    let lot_str = or_default [] (str_field json (codes "lotSz") s) in
    let ct_val_str = or_default (codes "1") (str_field json (codes "ctVal") s) in
    elim (Option-cases (Instruments.wanted json up c s)) [
      | inl skip ↦ absurd (ground (arith, skip, h))
      | inr ((inst_id, quote), listed) ↦ elim (Bool-cases (is_empty tick_str || is_empty lot_str)) [
        | inl empty ↦ absurd (ground (arith, listed, empty, h))
        | inr full ↦ elim (Option-cases (Instruments.effective_lot c lot_str ct_val_str)) [
          | inl panic ↦ absurd (ground (arith, listed, full, panic, h))
          | inr (lot, e) ↦
              with_sizes-Ticked json up c inst_id quote tick_str lot ct_val_str spec ct
                (ground (arith, listed, full, e, h))
        ]
      ]
    ]

cons_spec-Ticked :
    (spec : SymbolSpec) (rest : Option (List SymbolSpec × CtMap)) (specs : List SymbolSpec)
    (after : CtMap)
    → Ticked spec
    → ((ss : List SymbolSpec) (m : CtMap) → rest ≡ some (ss, m) → All Ticked ss)
    → Instruments.cons_spec spec rest ≡ some (specs, after)
    → All Ticked specs
unfolding Instruments.cons_spec
cons_spec-Ticked spec none specs after t h made = ground (arith, made)
cons_spec-Ticked spec (some (ss, m)) specs after t h made =
    let same : spec ∷ ss ≡ specs = ground (arith, made) in rw (sym same) (t, h ss m refl)

Turn-cases :
    (t : Turn)
    → ((t ≡ skipped) ⊎ (t ≡ panicked))
      ⊎ ((spec : SymbolSpec) × (ct : Option (ℤ × ℤ)) × (t ≡ pushed spec ct))
Turn-cases skipped = inl (inl refl)
Turn-cases panicked = inl (inr refl)
Turn-cases (pushed spec ct) = inr (spec, ct, refl)

-- A loop whose turns push instruments with a tick and a step.
pub turns_of-Ticked :
    {A : Type 0} (turn : A → Turn)
    → ((a : A) (spec : SymbolSpec) (ct : Option (ℤ × ℤ)) → turn a ≡ pushed spec ct → Ticked spec)
    → (list : List A) (m after : CtMap) (specs : List SymbolSpec)
    → turns_of turn list m ≡ some (specs, after)
    → All Ticked specs
unfolding turns_of
turns_of-Ticked turn t [] m after specs h =
    let same : [] ≡ specs = ground (arith, h) in rw (sym same) _
turns_of-Ticked turn t (a ∷ list) m after specs h = elim (Turn-cases (turn a)) [
  | inl (inl skip) ↦ turns_of-Ticked turn t list m after specs (ground (arith, skip, h))
  | inl (inr panic) ↦ absurd (ground (arith, panic, h))
  | inr (spec, ct, push) ↦
      cons_spec-Ticked spec (turns_of turn list (after_push spec ct m)) specs after
        (t a spec ct push) (λ ss m' e. turns_of-Ticked turn t list (after_push spec ct m) m' ss e)
        (ground (arith, push, h))
]

pub okx_turns-Ticked :
    (json : Json) (up : Text → Text) (c : OkxCategory) (list : List json.Value) (m after : CtMap)
    (specs : List SymbolSpec)
    → Instruments.turns json up c list m ≡ some (specs, after)
    → All Ticked specs
unfolding Instruments.turns
okx_turns-Ticked json up c list m after specs h =
    turns_of-Ticked (Instruments.turn json up c) (okx-Ticked json up c) list m after specs h
